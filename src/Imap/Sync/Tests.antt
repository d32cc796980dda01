-- ===== src/Imap/Sync/Tests.antt =====
-- Synchronizations of a small mailbox, and the theorems at concrete inputs.
use mathlib.Core.Path.{subst}
use mail_keep.Base.{
  ap, sym, &&-right, ℕ, ◌≡◌, ◌≤◌, refl, true, false, ◌&&◌, leb, Option, none, some, List, [], ◌∷◌,
  ◌++◌, map, if◌then◌else◌, inl, inr, arith, Bool-cases,
}
use mail_keep.Error.{Error, infrastructure}
use mail_keep.Imap.Sync.{sync_fuel, sync_folder}
use mail_keep.Imap.Io.{
  Server, stream, Fetched, FolderConfig, SyncStatus, SyncState, idle, mailbox, done, u32_max,
}
use mail_keep.Imap.Sync.Archive.{
  IsComplete, Archive, IsFaithful, IsAlwaysCovered, IsCovered, Offered, archive_after,
}
use mail_keep.Imap.Sync.Folder.{fresh, sync_folder_covered, sync_folder-IsComplete}
use mail_keep.Imap.Sync.Poll.{backoff_delay}
use mail_keep.Imap.Sync.Idle.{
  interrupted, Attempt, unconnected, idle_task, given_up, idle_task_retries,
}
use mail_keep.Imap.Sync.Ends.{sync_folder-Halts}
use mail_keep.Imap.Sync.Halts.{Halts}

-- a mailbox whose one message has UID 1
abbrev one_message : Fetched
one_message = record { uid = some 1; body = some []; internal_date = none; flags = [] }

abbrev window : ℕ → ℕ → List (Option Fetched)
window from to = if leb from 1 && leb 1 to then some one_message ∷ [] else []

abbrev small_server : Server
small_server = record {
  select = λ _. mailbox (some 7) (some 2);
  fetch = λ from to. stream (window from to);
}

abbrev Mail : ℕ → Type 0
Mail u = u ≡ 1

unstream : (a b : List (Option Fetched)) → stream a ≡ stream b → a ≡ b
unstream a b e = ground arith

window_complete : (from to u : ℕ) → u ≡ 1 → from ≤ u → u ≤ to → Offered u (window from to)
window_complete from to u e le ge = elim (Bool-cases (leb from 1 && leb 1 to)) [
  | inl t ↦ rw t (inl (ap some (sym e), [], refl))
  | inr f ↦ absurd (outside from to u e le ge f)
]
  where
    outside : (from to u : ℕ) → u ≡ 1 → from ≤ u → u ≤ to → (leb from 1 && leb 1 to) ≡ false → ⊥
    outside from to u e le ge f = ground arith

some_one : (u : ℕ) → some 1 ≡ some u → u ≡ 1
some_one u e = ground arith

window_bounded : (from to u : ℕ) → Offered u (window from to) → u ≤ to
window_bounded from to u o = elim (Bool-cases (leb from 1 && leb 1 to)) [
  | inl t ↦
      let o' : Offered u (some one_message ∷ []) = rw t at o in
      elim o' [
        | inl x ↦ inside (leb-le 1 to (&&-right (leb from 1) (leb 1 to) t)) (some_one u x.0)
        | inr y ↦ absurd y
      ]
  | inr f ↦ let o' : ⊥ = rw f at o in absurd o'
]
  where
    inside : 1 ≤ to → u ≡ 1 → u ≤ to
    inside h e = omega (arith, h, e)

    leb-le : (a b : ℕ) → leb a b ≡ true → a ≤ b
    leb-le a b h = ground arith

small_faithful : IsFaithful small_server Mail
small_faithful = record {
  complete = λ from to items e u m le ge.
      subst (Offered u) (unstream (window from to) items e) (window_complete from to u m le ge);
  bounded = λ from to items e u o.
      window_bounded from to u (subst (Offered u) (sym (unstream (window from to) items e)) o);
  positive = λ u m. omega (arith, m);
}

-- the folder is known under another UIDVALIDITY, so it rolls over
abbrev a_folder : FolderConfig
a_folder = record {
  id = 3;
  path = "INBOX";
  idle_enabled = false;
  uidvalidity = some 6;
  last_uid = 9;
}

abbrev an_archive : Archive
an_archive = record { uidvalidity = some 6; last_uid = 9; locations = (6, 9) ∷ [] }

abbrev a_status : SyncStatus
a_status = record { state = idle; last_error = none; messages_ingested_session = 0 }

six_ne_seven : an_archive.uidvalidity ≡ some 7 → ⊥
six_ne_seven e = ground arith

an_archive-IsCovered : IsCovered Mail 7 an_archive
unfolding IsCovered
an_archive-IsCovered e = absurd (six_ne_seven e)

-- The second call, which drops the locations, fails.
sync_folder_covered_example :
    IsAlwaysCovered Mail 7 3 an_archive
      (sync_folder small_server 5 a_folder
        (fresh (none ∷ some (infrastructure "down") ∷ []) a_status)).1.events
sync_folder_covered_example =
    sync_folder_covered small_server 5 a_folder 7 Mail an_archive small_faithful (some 2)
      (none ∷ some (infrastructure "down") ∷ []) a_status refl (omega arith) (λ e. ground arith)
      an_archive-IsCovered an_archive-IsCovered

synced_small : (sync_folder small_server 5 a_folder (fresh [] a_status)).0 ≡ done (1, 7)
unfolding sync_folder sync_fuel
synced_small = refl

sync_folder-IsComplete_example :
    let a =
      archive_after 3 an_archive
        (sync_folder small_server 5 a_folder (fresh [] a_status)).1.events in
    (◌≡◌ {A = ℕ} 7 7) × (a.uidvalidity ≡ some 7) × (a.last_uid ≡ 1) × IsComplete Mail 7 2 a
sync_folder-IsComplete_example =
    sync_folder-IsComplete small_server 5 a_folder 7 Mail an_archive small_faithful 2 [] a_status 1
      7 refl (omega arith) (λ e. ground arith) an_archive-IsCovered an_archive-IsCovered
      synced_small

uid_next_small :
    (validity : Option ℕ) (n : ℕ)
    → mailbox (some 7) (some 2) ≡ mailbox validity (some n)
    → n ≤ u32_max
uid_next_small validity n e = ground arith

sync_folder-Halts_example : Halts (sync_folder small_server 5 a_folder (fresh [] a_status))
sync_folder-Halts_example =
    sync_folder-Halts small_server 5 a_folder (fresh [] a_status) uid_next_small

backoff_runs : (backoff_delay 1 ≡ 5) × (backoff_delay 6 ≡ 160) × (backoff_delay 100 ≡ 300)
unfolding backoff_delay
backoff_runs = (refl, refl, refl)

abbrev four_errors : List Error
four_errors = infrastructure "1" ∷ infrastructure "2" ∷ infrastructure "3" ∷ infrastructure "4" ∷ []

-- one synchronization, after which the task is cancelled in its wait
abbrev last_attempt : Attempt
last_attempt = record {
  cancelled = false;
  connected = none;
  turns =
      record {
        cancelled = false;
        server = small_server;
        init_fails = false;
        wait = interrupted;
        done_fails = false;
      }
      ∷ [];
  stopped = false;
}

idle_task_retries_example :
    idle_task 5
      (map unconnected (four_errors ++ infrastructure "5" ∷ []) ++ last_attempt ∷ [])
      a_folder
      0
      (fresh [] a_status)
    ≡ idle_task 5
        (last_attempt ∷ [])
        a_folder
        5
        (given_up 5 (infrastructure "5") (fresh [] a_status))
idle_task_retries_example =
    idle_task_retries 5 a_folder (last_attempt ∷ []) four_errors (infrastructure "5")
      (fresh [] a_status) (omega arith)

reports_error : (given_up 5 (infrastructure "5") (fresh [] a_status)).status.state ≡ SyncState.error
reports_error = refl

-- A synchronization that succeeds resets the failures and reports `Idle`.
recovers :
    let x =
      idle_task 5
        (last_attempt ∷ [])
        a_folder
        5
        (given_up 5 (infrastructure "5") (fresh [] a_status)) in
    (x.result ≡ done tt) × (x.failures ≡ 0) × (x.world.status.state ≡ SyncState.idle)
unfolding idle_task sync_folder sync_fuel
recovers = (refl, refl, refl)
