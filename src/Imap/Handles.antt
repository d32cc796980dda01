-- ===== src/Imap/Handles.antt =====
-- The handles of crates/imap/src/adapter.rs and the tasks that bear their serial numbers: what a stop
-- and an insertion leave.
use mail_keep.Base.{
  ℕ, ◌≡◌, ◌≢◌, refl, sym, ap, ◌∙◌, inl, inr, Option, none, some, List, [], ◌∷◌, ◌==◌, ==_refl,
  ==_ne, map, All, All-append, arith, option_map, Bool-cases, Option-cases,
}
use mail_keep.Imap.Io.{FolderConfig}
use mail_keep.Imap.Adapter.{
  Task, idle_on, poll_on, AccountHandle, Running, handle_of, remove_handle, end_tasks, cancel,
  idle_folder, poll_set, spawn_idle, spawn_poll, spawned, numbered,
}

-- the account of a task
abbrev pub owner : Task → ℕ
owner (idle_on id f) = id
owner (poll_on id fs) = id

abbrev pub number_of : AccountHandle → ℕ
number_of h = h.serial

-- A running task is one of the handle that its account is tracked with.
abbrev pub IsTracked : List AccountHandle → Running → Type 0
IsTracked hs r = option_map number_of (handle_of (owner r.task) hs) ≡ some r.serial

pub handle_of-removed :
    (id : ℕ) (hs : List AccountHandle) → handle_of id (remove_handle id hs) ≡ none
handle_of-removed id [] = refl
handle_of-removed id (h ∷ hs) = ground (arith, handle_of-removed id hs)

pub handle_of-other :
    (id other : ℕ) (hs : List AccountHandle)
    → other ≢ id
    → handle_of other (remove_handle id hs) ≡ handle_of other hs
handle_of-other id other [] ne = refl
handle_of-other id other (h ∷ hs) ne = ground (arith, handle_of-other id other hs ne)

-- The tasks that are left when a handle is cancelled belong to other accounts.
ended :
    (id : ℕ) (hs : List AccountHandle) (h : AccountHandle) (rs : List Running)
    → handle_of id hs ≡ some h
    → All (IsTracked hs) rs
    → All (λ r. (owner r.task ≢ id) × IsTracked hs r) (end_tasks h.serial rs)
ended id hs h [] e all = tt
ended id hs h (r ∷ rs) e (k, all) = elim (Bool-cases (r.serial == h.serial)) [
  | inl q ↦ rw q (ended id hs h rs e all)
  | inr q ↦
      rw q (
        (λ same. ground (arith, k, e, q, ap (λ i. handle_of i hs) same), k),
        ended id hs h rs e all,
      )
]

pub unended :
    (id : ℕ) (hs : List AccountHandle) (rs : List Running)
    → handle_of id hs ≡ none
    → All (IsTracked hs) rs
    → All (λ r. (owner r.task ≢ id) × IsTracked hs r) rs
unended id hs [] e all = tt
unended id hs (r ∷ rs) e (k, all) =
    ((λ same. ground (arith, k, e, ap (λ i. handle_of i hs) same), k), unended id hs rs e all)

pub cancelled :
    (id : ℕ) (hs : List AccountHandle) (rs : List Running)
    → All (IsTracked hs) rs
    → All (λ r. (owner r.task ≢ id) × IsTracked hs r) (cancel (handle_of id hs) rs)
unfolding cancel
cancelled id hs rs all = elim (Option-cases (handle_of id hs)) [
  | inl e ↦ rw e (unended id hs rs e all)
  | inr (h, e) ↦ rw e (ended id hs h rs e all)
]

-- the handles but for one account's own are those that other accounts' tasks need
pub kept :
    (id : ℕ) (hs : List AccountHandle) (rs : List Running)
    → All (λ r. (owner r.task ≢ id) × IsTracked hs r) rs
    → All (IsTracked (remove_handle id hs)) rs
kept id hs [] all = tt
kept id hs (r ∷ rs) ((ne, k), all) =
    (ap (option_map number_of) (handle_of-other id (owner r.task) hs ne) ∙ k, kept id hs rs all)

-- behind a new handle, too
pub kept_behind :
    (new : AccountHandle) (hs : List AccountHandle) (rs : List Running)
    → All (λ r. (owner r.task ≢ new.account_id) × IsTracked hs r) rs
    → All (IsTracked (new ∷ remove_handle new.account_id hs)) rs
kept_behind new hs [] all = tt
kept_behind new hs (r ∷ rs) ((ne, k), all) = (
  rw (==_ne new.account_id (owner r.task) (λ e. ne (sym e)))
      (ap (option_map number_of) (handle_of-other new.account_id (owner r.task) hs ne) ∙ k),
  kept_behind new hs rs all,
)

pub new_tasks :
    (new : AccountHandle) (hs : List AccountHandle) (ts : List Task)
    → All (λ t. owner t ≡ new.account_id) ts
    → All (IsTracked (new ∷ hs)) (map (numbered new.serial) ts)
new_tasks new hs [] all = tt
new_tasks new hs (t ∷ ts) (e, all) = (rw (e, ==_refl new.account_id) refl, new_tasks new hs ts all)

pub spawned-owner : (id : ℕ) (fs : List FolderConfig) → All (λ t. owner t ≡ id) (spawned id fs)
unfolding spawned spawn_idle spawn_poll
spawned-owner id fs =
    All-append (λ t. owner t ≡ id) (spawn_idle id (idle_folder fs)) (spawn_poll id (poll_set fs))
      (idle_owner id (idle_folder fs)) (poll_owner id (poll_set fs))
  where
    idle_owner : (id : ℕ) (o : Option FolderConfig) → All (λ t. owner t ≡ id) (spawn_idle id o)
    idle_owner id none = tt
    idle_owner id (some f) = (refl, tt)

    poll_owner : (id : ℕ) (fs : List FolderConfig) → All (λ t. owner t ≡ id) (spawn_poll id fs)
    poll_owner id [] = tt
    poll_owner id (f ∷ fs) = (refl, tt)
