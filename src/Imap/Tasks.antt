-- ===== src/Imap/Tasks.antt =====
-- The tasks of crates/imap/src/adapter.rs: what they work on, and that none outlives its handle.
use mail_keep.Base.{
  ℕ, ◌+◌, ◌≤◌, ◌≡◌, refl, ◌∙◌, Bool, true, false, not, Option, none, some, List, [], ◌∷◌, ◌++◌,
  arith,
}
use mail_keep.Sql.Table.{select, matching}
use mail_keep.Imap.Io.{FolderConfig}
use mail_keep.Imap.Adapter.{
  Task, idle_on, poll_on, head, tail, is_idle, idle_folder, poll_set, spawn_idle, spawn_poll,
  spawned,
}

-- the folders that a task keeps in sync
abbrev pub folders_of : Task → List FolderConfig
folders_of (idle_on id f) = f ∷ []
folders_of (poll_on id fs) = fs

abbrev pub all_folders : List Task → List FolderConfig
all_folders [] = []
all_folders (t ∷ ts) = folders_of t ++ all_folders ts

abbrev pub is_idle_task : Task → Bool
is_idle_task (idle_on id f) = true
is_idle_task (poll_on id fs) = false

one_idle :
    (id : ℕ) (o : Option FolderConfig) (xs : List FolderConfig)
    → matching is_idle_task (spawn_idle id o ++ spawn_poll id xs) ≤ 1
unfolding spawn_idle spawn_poll
one_idle id none [] = omega arith
one_idle id none (x ∷ xs) = omega arith
one_idle id (some f) [] = omega arith
one_idle id (some f) (x ∷ xs) = omega arith

module _ (p : FolderConfig → Bool) where
  matching-append :
      (xs ys : List FolderConfig) → matching p (xs ++ ys) ≡ matching p xs + matching p ys
  matching-append [] ys = omega arith
  matching-append (x ∷ xs) ys = ground (arith, matching-append xs ys)

  matching-select :
      (q : FolderConfig → Bool) (xs : List FolderConfig)
      → matching p (select q xs) + matching p (select (λ f. not (q f)) xs) ≡ matching p xs
  matching-select q [] = refl
  matching-select q (x ∷ xs) = ground (arith, matching-select q xs)

  all_folders-append :
      (ts us : List Task)
      → matching p (all_folders (ts ++ us))
        ≡ matching p (all_folders ts) + matching p (all_folders us)
  all_folders-append [] us = omega arith
  all_folders-append (t ∷ ts) us = omega (
    arith,
    matching-append (folders_of t) (all_folders (ts ++ us)),
    matching-append (folders_of t) (all_folders ts),
    all_folders-append ts us,
  )

  polled_matching :
      (id : ℕ) (xs : List FolderConfig)
      → matching p (all_folders (spawn_poll id xs)) ≡ matching p xs
  unfolding spawn_poll
  polled_matching id [] = refl
  polled_matching id (x ∷ xs) = matching-append (x ∷ xs) [] ∙ omega arith

  idle_matching :
      (id : ℕ) (xs : List FolderConfig)
      → matching p (all_folders (spawn_idle id (head xs))) + matching p (tail xs) ≡ matching p xs
  unfolding spawn_idle
  idle_matching id [] = refl
  idle_matching id (x ∷ xs) = ground arith

  -- The tasks that `start_account` spawns have every folder as often as it was given, and so each
  -- folder in one task; and at most one of them is an idle task.
  pub spawned-folders :
      (id : ℕ) (folders : List FolderConfig)
      → (matching p (all_folders (spawned id folders)) ≡ matching p folders)
        × (matching is_idle_task (spawned id folders) ≤ 1)
  unfolding spawned idle_folder poll_set
  spawned-folders id folders =
      let idles = select is_idle folders in
      let others = select (λ f. not (is_idle f)) folders in
      (
        omega (
          arith,
          all_folders-append (spawn_idle id (head idles)) (spawn_poll id (others ++ tail idles)),
          polled_matching id (others ++ tail idles),
          idle_matching id idles,
          matching-append others (tail idles),
          matching-select is_idle folders,
        ),
        one_idle id (head idles) (others ++ tail idles),
      )
