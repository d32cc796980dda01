-- ===== src/Imap/Leaks.antt =====
-- No task of crates/imap/src/adapter.rs outlives the handle of its account, where calls on the adapter
-- do not overlap; Imap.Interleaved is about those that do.
use mail_keep.Base.{ℕ, ◌≡◌, refl, List, [], ◌∷◌, map, All, All-append, arith}
use mail_keep.Imap.Port.{ConnectionParams, PortLaws, others_than}
use mail_keep.Imap.Adapter.{
  AccountHandle, Running, ImapAdapter, handle_of, remove_handle, cancel, stop_account, spawned,
  numbered, new_handle, remove_account, join_tasks, spawn_tasks, track, start_account,
  tracked_accounts, imap_port,
}
use mail_keep.Imap.Handles.{
  IsTracked, handle_of-removed, cancelled, unended as apart, kept, kept_behind, new_tasks,
  spawned-owner,
}

-- Every running task is one of a tracked account.
unfoldable pub NoLeak : ImapAdapter → Type 0
NoLeak a = All (IsTracked a.tracked) a.running

pub stop-NoLeak : (id : ℕ) (a : ImapAdapter) → NoLeak a → NoLeak (stop_account id a).1
unfolding NoLeak stop_account join_tasks remove_account
stop-NoLeak id a h =
    kept id a.tracked (cancel (handle_of id a.tracked) a.running)
      (cancelled id a.tracked a.running h)

pub start-NoLeak :
    (id : ℕ) (params : ConnectionParams) (a : ImapAdapter)
    → NoLeak a
    → NoLeak (start_account id params a).1
unfolding NoLeak start_account stop_account join_tasks remove_account spawn_tasks track
start-NoLeak id params a h =
    let new = new_handle id a.next in
    let ts = spawned id params.folders in
    let others = remove_handle id a.tracked in
    let left = cancel (handle_of id a.tracked) a.running in
    All-append (IsTracked (new ∷ remove_handle id others)) (map (numbered a.next) ts) left
      (new_tasks new (remove_handle id others) ts (spawned-owner id params.folders))
      (kept_behind new others left (
        apart id others left (handle_of-removed id a.tracked)
          (kept id a.tracked left (cancelled id a.tracked a.running h))))

-- an adapter that has tracked nothing
abbrev pub no_accounts : ImapAdapter
no_accounts = record { tracked = []; running = []; next = 0 }

pub no_accounts-NoLeak : NoLeak no_accounts
unfolding NoLeak
no_accounts-NoLeak = tt

tracked-remove_handle :
    (id : ℕ) (hs : List AccountHandle)
    → map (λ (h : AccountHandle). h.account_id) (remove_handle id hs)
      ≡ others_than id (map (λ (h : AccountHandle). h.account_id) hs)
tracked-remove_handle id [] = refl
tracked-remove_handle id (h ∷ hs) = ground (arith, tracked-remove_handle id hs)

-- The adapter keeps the laws that the service needs.
pub imap_port-PortLaws : PortLaws imap_port
unfolding imap_port stop_account join_tasks remove_account tracked_accounts
imap_port-PortLaws = record { stops = λ id a. tracked-remove_handle id a.tracked }

-- Where no account is tracked no task runs.
pub untracked_idle : (a : ImapAdapter) → NoLeak a → tracked_accounts a ≡ [] → a.running ≡ []
unfolding NoLeak tracked_accounts
untracked_idle a h e = none_running a.tracked a.running e h
  where
    none_running :
        (hs : List AccountHandle) (rs : List Running)
        → map (λ (h : AccountHandle). h.account_id) hs ≡ []
        → All (IsTracked hs) rs
        → rs ≡ []
    none_running [] [] e all = refl
    none_running [] (r ∷ rs) e (k, all) = ground (arith, k)
    none_running (h ∷ hs) rs e all = ground (arith, e)
