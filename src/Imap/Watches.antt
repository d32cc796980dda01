-- ===== src/Imap/Watches.antt =====
-- Which running task of crates/imap/src/adapter.rs has a folder.
use mail_keep.Base.{
  ℕ, ◌≡◌, refl, ap, inl, inr, Bool, true, not, List, [], ◌∷◌, ◌++◌, map, In, In-append_left,
  In-append_right, Bool-cases,
}
use mail_keep.Sql.Table.{select}
use mail_keep.Imap.Io.{FolderConfig}
use mail_keep.Imap.Port.{ConnectionParams}
use mail_keep.Imap.Adapter.{
  Task, Running, ImapAdapter, head, tail, is_idle, idle_folder, poll_set, spawn_idle, spawn_poll,
  spawned, numbered, remove_account, join_tasks, stop_account, spawn_tasks, track, start_account,
}
use mail_keep.Imap.Tasks.{folders_of}
use mail_keep.Imap.Handles.{owner}

pub In-map_of : {A B : Type 0} (f : A → B) (a : A) (xs : List A) → In a xs → In (f a) (map f xs)
In-map_of f a [] h = h
In-map_of f a (x ∷ xs) (inl e) = inl (ap f e)
In-map_of f a (x ∷ xs) (inr h) = inr (In-map_of f a xs h)

pub In-selected :
    {A : Type 0} (p : A → Bool) (a : A) (xs : List A) → In a xs → p a ≡ true → In a (select p xs)
In-selected p a [] h e = h
In-selected p a (x ∷ xs) (inl q) e = let k : p x ≡ true = rw q at e in rw k (inl q)
In-selected p a (x ∷ xs) (inr h) e = elim (Bool-cases (p x)) [
  | inl q ↦ rw q (inr (In-selected p a xs h e))
  | inr q ↦ rw q (In-selected p a xs h e)
]

-- the task of an account, among some, that has a folder
abbrev pub Has : ℕ → FolderConfig → List Task → Type 0
Has id g ts = (t : Task) × In t ts × (owner t ≡ id) × In g (folders_of t)

idle_Has :
    (id : ℕ) (g : FolderConfig) (xs ys : List FolderConfig)
    → In g xs
    → Has id g (spawn_idle id (head xs) ++ spawn_poll id (ys ++ tail xs))
unfolding spawn_idle spawn_poll
idle_Has id g [] ys h = absurd h
idle_Has id g (x ∷ xs) ys (inl e) = (_, inl refl, refl, inl e)
idle_Has id g (x ∷ []) ys (inr h) = absurd h
idle_Has id g (x ∷ z ∷ xs) [] (inr h) = (_, inr (inl refl), refl, h)
idle_Has id g (x ∷ z ∷ xs) (y ∷ ys) (inr h) =
    (_, inr (inl refl), refl, In-append_right g (y ∷ ys) (z ∷ xs) h)

poll_Has :
    (id : ℕ) (g : FolderConfig) (xs ys : List FolderConfig)
    → In g ys
    → Has id g (spawn_idle id (head xs) ++ spawn_poll id (ys ++ tail xs))
unfolding spawn_idle spawn_poll
poll_Has id g xs [] h = absurd h
poll_Has id g [] (y ∷ ys) h = (_, inl refl, refl, In-append_left g (y ∷ ys) [] h)
poll_Has id g (x ∷ xs) (y ∷ ys) h = (_, inr (inl refl), refl, In-append_left g (y ∷ ys) xs h)

spawned_Has :
    (id : ℕ) (g : FolderConfig) (fs : List FolderConfig) → In g fs → Has id g (spawned id fs)
unfolding spawned idle_folder poll_set
spawned_Has id g fs h = elim (Bool-cases (is_idle g)) [
  | inl e ↦
      idle_Has id g (select is_idle fs) (select (λ f. not (is_idle f)) fs)
        (In-selected is_idle g fs h e)
  | inr e ↦
      poll_Has id g (select is_idle fs) (select (λ f. not (is_idle f)) fs)
        (In-selected (λ f. not (is_idle f)) g fs h (rw e refl))
]

-- a running task of the account has the folder
abbrev pub Watches : ImapAdapter → ℕ → FolderConfig → Type 0
Watches a id g = (r : Running) × In r a.running × (owner r.task ≡ id) × In g (folders_of r.task)

pub started_Watches :
    (id : ℕ) (params : ConnectionParams) (a : ImapAdapter) (g : FolderConfig)
    → In g params.folders
    → Watches (start_account id params a).1 id g
unfolding start_account stop_account join_tasks remove_account spawn_tasks track
started_Watches id params a g h =
    let (t, i, e, k) = spawned_Has id g params.folders h in
    (
      numbered a.next t,
      In-append_left (numbered a.next t) _ _
          (In-map_of (numbered a.next) t (spawned id params.folders) i),
      e,
      k,
    )
