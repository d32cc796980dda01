-- ===== src/Imap/Sync/Folder.antt =====
-- `sync_folder` of crates/imap/src/sync.rs as a whole: the archive during and after it.
use mail_keep.Base.{
  ℕ, suc, ◌-◌, ◌≤◌, ◌≡◌, refl, ap, ◌∙◌, false, Bool-cases, Option, none, some, option_map, List, [],
  ◌∷◌, arith, ==_refl, ltb, inl, inr, Option-cases,
}
use mail_keep.Imap.Sync.{
  Progress, sync_windows, finish_sync, sync_from, sync_selected, sync_folder, rolled_over,
  handle_uidvalidity_change, nothing_new, sync_fuel, unstarted,
}
use mail_keep.Imap.Io.{
  Event, recorded, dropped, World, SyncStatus, done, continue, call, Server, pure, mailbox,
  FolderConfig, u32_max, saturating_add, set_state,
}
use mail_keep.Error.{Error}
use mail_keep.Imap.Sync.Bounds.{nothing_lt, something_le}
use mail_keep.Imap.Sync.Archive.{
  IsComplete, Sat_always, Sat_done, Archive, archive_after, IsCovered, IsAlwaysCovered, IsFaithful,
  Sat, Sat-bind, Sat-call,
}
use mail_keep.Imap.Sync.Windows.{
  Now, Safe, Below, At, Done, windows_Sat, Safe-recorded, recorded_now,
}

-- a world in which no call has been made yet
abbrev pub fresh : List (Option Error) → SyncStatus → World
fresh faults status = record { events = []; faults = faults; status = status }

module _ (server : Server) (account_id : ℕ) (folder : FolderConfig) (uidvalidity : ℕ)
    (mail : ℕ → Type 0) (start : Archive) (faithful : IsFaithful server mail) where
  -- what is known when the folder is synchronized
  pub record Final (upper : Option ℕ) (result : ℕ × ℕ) (events : List Event) : Type 0 where
    pub validity : result.1 ≡ uidvalidity
    pub cursor : At server account_id folder uidvalidity mail start result.0 events
    pub complete :
        (u : ℕ)
        → upper ≡ some u
        → Below server account_id folder uidvalidity mail start (suc u) events

  abbrev Known : List Event → Type 0
  Known = Safe server account_id folder uidvalidity mail start

  recorded_Final :
      (upper : Option ℕ) (c : ℕ) (before events : List Event)
      → events ≡ recorded folder.id uidvalidity c ∷ before
      → ((u : ℕ)
          → upper ≡ some u
          → Below server account_id folder uidvalidity mail start (suc u) before)
      → Final upper (c, uidvalidity) events
  recorded_Final upper c before events e complete = record {
    validity = refl;
    cursor = rw now (refl, refl);
    complete = λ u eu. rw now (complete u eu);
  }
    where
      now :
          Now server account_id folder uidvalidity mail start events
          ≡ record (Now server account_id folder uidvalidity mail start before) {
            uidvalidity = some uidvalidity;
            last_uid = c;
          }
      now =
          ap (Now server account_id folder uidvalidity mail start) e
          ∙ recorded_now server account_id folder uidvalidity mail start c before

  -- the record of a cursor up to which the archive has every message
  record_Sat :
      (upper : Option ℕ) (c : ℕ) (w : World)
      → Known w.events
      → Below server account_id folder uidvalidity mail start (suc c) w.events
      → ((u : ℕ)
          → upper ≡ some u
          → Below server account_id folder uidvalidity mail start (suc u) w.events)
      → Sat Known
          (Final upper)
          (continue (call (recorded folder.id uidvalidity c) w) (λ _. pure (c, uidvalidity)))
  unfolding pure
  record_Sat upper c w h below complete =
      Sat-bind Known (λ _ events. events ≡ recorded folder.id uidvalidity c ∷ w.events)
        (Final upper) (call (recorded folder.id uidvalidity c) w) (λ _. pure (c, uidvalidity))
        (Sat-call Known _ (recorded folder.id uidvalidity c) w h
          (Safe-recorded server account_id folder uidvalidity mail start c w.events h
            (λ u m x. below u m (omega (arith, x))))
          refl)
        (λ _ v s q. (s, recorded_Final upper c w.events v.events q complete))

  finish_sync-Sat :
      (upper : Option ℕ) (p : Progress) (w : World)
      → Known w.events
      → Done server account_id folder uidvalidity mail start upper p w.events
      → Sat Known (Final upper) (finish_sync server account_id folder uidvalidity p w)
  unfolding finish_sync pure
  finish_sync-Sat upper p w h d = elim (Bool-cases (ltb 0 p.ingested)) [
    | inl e ↦
        rw (finish_sync, e)
          (h, record { validity = refl; cursor = d.cursor (ground arith); complete = d.complete })
    | inr e ↦ rw (finish_sync, e) (record_Sat upper p.high w h d.below d.complete)
  ]

  loop_Sat :
      (fuel : ℕ) (upper : Option ℕ) (last_uid : ℕ) (w : World)
      → last_uid ≤ u32_max
      → ((u : ℕ) → upper ≡ some u → saturating_add last_uid 1 ≤ u)
      → Known w.events
      → Below server account_id folder uidvalidity mail start (suc last_uid) w.events
      → Sat Known (Final upper) (
          continue
            (sync_windows server account_id folder uidvalidity fuel upper
              (saturating_add last_uid 1)
              (unstarted last_uid)
              w)
            (finish_sync server account_id folder uidvalidity))
  loop_Sat fuel upper last_uid w small some_left h below =
      Sat-bind Known (Done server account_id folder uidvalidity mail start upper) (Final upper)
        (sync_windows server account_id folder uidvalidity fuel upper (saturating_add last_uid 1)
          (unstarted last_uid) w)
        (finish_sync server account_id folder uidvalidity)
        (windows_Sat server account_id folder uidvalidity mail start faithful fuel upper
          (saturating_add last_uid 1) (unstarted last_uid) w (omega arith) some_left h
          (λ u m x. below u m (omega (arith, x))) (omega (arith, small)) (λ x. ground arith))
        (λ p v s d. finish_sync-Sat upper p v s d)

  sync_from-Sat :
      (upper : Option ℕ) (last_uid : ℕ) (w : World)
      → last_uid ≤ u32_max
      → Known w.events
      → Below server account_id folder uidvalidity mail start (suc last_uid) w.events
      → Sat Known (Final upper) (sync_from server account_id folder uidvalidity upper last_uid w)
  unfolding sync_from set_state continue
  sync_from-Sat upper last_uid w small h below =
      elim (Bool-cases (nothing_new upper (saturating_add last_uid 1))) [
        | inl e ↦ rw e (
            record_Sat upper last_uid _ h below (λ u eu v m x.
              below v m (omega (arith, x, nothing_lt upper (saturating_add last_uid 1) e u eu))))
        | inr e ↦ rw e (
            loop_Sat sync_fuel upper last_uid _ small
              (λ u eu. something_le upper (saturating_add last_uid 1) e u eu) h below)
      ]

  known_same :
      (known : ℕ)
      → folder.uidvalidity ≡ some known
      → rolled_over server account_id folder uidvalidity ≡ false
      → known ≡ uidvalidity
  unfolding rolled_over
  known_same known e same = ground arith

  start_below :
      IsCovered mail uidvalidity
        (record start { uidvalidity = folder.uidvalidity; last_uid = folder.last_uid })
      → (folder.uidvalidity ≡ none → folder.last_uid ≡ 0)
      → rolled_over server account_id folder uidvalidity ≡ false
      → Below server account_id folder uidvalidity mail start (suc folder.last_uid) []
  unfolding IsCovered archive_after
  start_below covered unset same u m x = elim (Option-cases folder.uidvalidity) [
    | inl e ↦ absurd (omega (arith, x, unset e, faithful.positive u m))
    | inr (known, e) ↦ covered (e ∙ ap some (known_same known e same)) u m (omega (arith, x))
  ]

  dropped_now :
      (events : List Event)
      → Now server account_id folder uidvalidity mail start (dropped folder.id ∷ events)
        ≡ record (Now server account_id folder uidvalidity mail start events) { locations = [] }
  unfolding archive_after
  dropped_now events = rw (==_refl folder.id)

  Known-dropped :
      (events : List Event)
      → Known events
      → (Now server account_id folder uidvalidity mail start events).last_uid ≡ 0
      → Known (dropped folder.id ∷ events)
  unfolding IsAlwaysCovered IsCovered
  Known-dropped events h e =
      (rw (dropped_now events) (λ _ u m x. absurd (omega (arith, x, e, faithful.positive u m))), h)

  -- The cursor is reset before the locations are dropped.
  handle_Sat :
      (w : World)
      → Known w.events
      → Sat Known (λ _ _. Unit) (handle_uidvalidity_change folder.id uidvalidity w)
  unfolding handle_uidvalidity_change
  handle_Sat w h =
      Sat-bind Known (λ _ events. events ≡ recorded folder.id uidvalidity 0 ∷ w.events)
        (λ _ _. Unit) (call (recorded folder.id uidvalidity 0) w) (λ _. call (dropped folder.id))
        (Sat-call Known _ (recorded folder.id uidvalidity 0) w h
          (Safe-recorded server account_id folder uidvalidity mail start 0 w.events h
            (λ u m x. absurd (omega (arith, x, faithful.positive u m))))
          refl)
        (λ _ v s q.
          Sat-call Known _ (dropped folder.id) v s
            (Known-dropped v.events s (
              rw q (
                rw (recorded_now server account_id folder uidvalidity mail start 0 w.events) refl)))
            tt)

  selected_Sat :
      (uid_next : Option ℕ) (w : World)
      → w.events ≡ []
      → folder.last_uid ≤ u32_max
      → (folder.uidvalidity ≡ none → folder.last_uid ≡ 0)
      → IsCovered mail uidvalidity start
      → IsCovered mail uidvalidity
          (record start { uidvalidity = folder.uidvalidity; last_uid = folder.last_uid })
      → Sat Known
          (Final (option_map (λ n. n - 1) uid_next))
          (sync_selected server account_id folder uidvalidity uid_next w)
  unfolding IsAlwaysCovered sync_selected
  selected_Sat uid_next w e small unset h covered =
      elim (Bool-cases (rolled_over server account_id folder uidvalidity)) [
        | inl r ↦
            rw (sync_selected, r)
              (Sat-bind Known (λ _ _. Unit) (Final (option_map (λ n. n - 1) uid_next))
                (handle_uidvalidity_change folder.id uidvalidity w)
                (λ _.
                  sync_from server account_id folder uidvalidity (option_map (λ n. n - 1) uid_next)
                    0)
                (handle_Sat w (rw e h))
                (λ _ v s q.
                  sync_from-Sat (option_map (λ n. n - 1) uid_next) 0 v (omega arith) s
                    (λ u m x. absurd (omega (arith, x, faithful.positive u m)))))
        | inr r ↦
            rw (sync_selected, r)
              (sync_from-Sat (option_map (λ n. n - 1) uid_next) folder.last_uid w small (rw e h)
                (rw e (start_below covered unset r)))
      ]

  -- While a folder is synchronized and after it, also when a call or the server fails at any moment,
  -- the archive has every message up to its cursor: no crash makes the next pass skip a message. The
  -- server is one that answers UID FETCH as RFC 3501 says, and the cursor that the task was started
  -- with may be older than the archive's, but is one up to which the archive is complete.
  pub sync_folder_covered :
      (uid_next : Option ℕ) (faults : List (Option Error)) (status : SyncStatus)
      → server.select folder.path ≡ mailbox (some uidvalidity) uid_next
      → folder.last_uid ≤ u32_max
      → (folder.uidvalidity ≡ none → folder.last_uid ≡ 0)
      → IsCovered mail uidvalidity start
      → IsCovered mail uidvalidity
          (record start { uidvalidity = folder.uidvalidity; last_uid = folder.last_uid })
      → IsAlwaysCovered mail uidvalidity folder.id start
          (sync_folder server account_id folder (fresh faults status)).1.events
  unfolding sync_folder
  sync_folder_covered uid_next faults status e small unset h covered =
      rw (sync_folder, e)
        (Sat_always Known (Final (option_map (λ n. n - 1) uid_next))
          (sync_selected server account_id folder uidvalidity uid_next (fresh faults status))
          (selected_Sat uid_next (fresh faults status) refl small unset h covered))

  -- When the synchronization of a folder succeeds and the server gave a UIDNEXT, the archive's cursor
  -- is the one it returns, with the server's UIDVALIDITY, and the archive has every message of the
  -- mailbox with a UID below UIDNEXT. The server is one that answers UID FETCH as RFC 3501 says, and
  -- the archive was complete up to its cursor and up to the one that the task was started with.
  pub sync_folder-IsComplete :
      (n : ℕ) (faults : List (Option Error)) (status : SyncStatus) (high validity : ℕ)
      → server.select folder.path ≡ mailbox (some uidvalidity) (some n)
      → folder.last_uid ≤ u32_max
      → (folder.uidvalidity ≡ none → folder.last_uid ≡ 0)
      → IsCovered mail uidvalidity start
      → IsCovered mail uidvalidity
          (record start { uidvalidity = folder.uidvalidity; last_uid = folder.last_uid })
      → (sync_folder server account_id folder (fresh faults status)).0 ≡ done (high, validity)
      → let a =
          archive_after folder.id start
            (sync_folder server account_id folder (fresh faults status)).1.events in
        (validity ≡ uidvalidity)
        × (a.uidvalidity ≡ some uidvalidity)
        × (a.last_uid ≡ high)
        × IsComplete mail uidvalidity n a
  unfolding sync_folder IsComplete
  sync_folder-IsComplete n faults status high validity e small unset h covered =
      rw (sync_folder, e)
        (λ r. taken r (
          Sat_done Known (Final (some (n - 1)))
            (sync_selected server account_id folder uidvalidity (some n) (fresh faults status))
            (high, validity) r
            (selected_Sat (some n) (fresh faults status) refl small unset h covered)))
    where
      taken :
          (sync_selected server account_id folder uidvalidity (some n) (fresh faults status)).0
            ≡ done (high, validity)
          → Final
              (some (n - 1))
              (high, validity)
              (sync_selected server account_id folder uidvalidity
                (some n)
                (fresh faults status)).1.events
          → let a =
              archive_after folder.id start
                (sync_selected server account_id folder uidvalidity
                  (some n)
                  (fresh faults status)).1.events in
            (validity ≡ uidvalidity)
            × (a.uidvalidity ≡ some uidvalidity)
            × (a.last_uid ≡ high)
            × IsComplete mail uidvalidity n a
      taken r f = (
        f.validity,
        f.cursor.0,
        f.cursor.1,
        λ u m lt. f.complete (n - 1) refl u m (omega (arith, lt)),
      )
