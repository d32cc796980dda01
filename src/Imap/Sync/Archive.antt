-- ===== src/Imap/Sync/Archive.antt =====
-- What the calls of `sync_folder` (crates/imap/src/sync.rs) do to the archive of one folder, and what
-- is asked of it. `Sat` says what an action keeps and returns.
use mathlib.Core.Path.{subst}
use mail_keep.Base.{
  ℕ, ◌≤◌, ◌<◌, ◌≡◌, Option, none, some, List, [], ◌∷◌, arith, ◌==◌, if◌then◌else◌, In, ◌⊎◌,
}
use mail_keep.Error.{Error}
use mail_keep.Imap.Io.{
  Event, ingested, recorded, dropped, World, IoResult, done, failed, unfinished, Io, continue, call,
  call_with, Server, stream, Fetched,
}

-- The archive of one folder: its cursor, and the messages that the ingest service took since their
-- locations were dropped, by UIDVALIDITY and UID.
pub record Archive : Type 0 where
  pub uidvalidity : Option ℕ
  pub last_uid : ℕ
  pub locations : List (ℕ × ℕ)

-- the effect of a call on the archive of the folder `id`
abbrev pub apply : ℕ → Archive → Event → Archive
apply id a (ingested r) =
    if r.folder_id == id then record a { locations = (r.uidvalidity, r.uid) ∷ a.locations } else a
apply id a (recorded folder uidvalidity last_uid) =
    if folder == id then record a { uidvalidity = some uidvalidity; last_uid = last_uid } else a
apply id a (dropped folder) = if folder == id then record a { locations = [] } else a

-- the archive after some calls, the newest first
unfoldable pub archive_after : ℕ → Archive → List Event → Archive
archive_after id a [] = a
archive_after id a (e ∷ events) = apply id (archive_after id a events) e

-- The archive has every message of the mailbox up to its cursor, if its cursor is of this
-- UIDVALIDITY.
unfoldable pub IsCovered : (ℕ → Type 0) → ℕ → Archive → Type 0
IsCovered mail uidvalidity a =
    a.uidvalidity ≡ some uidvalidity
    → (u : ℕ) → mail u
    → u ≤ a.last_uid
    → In (uidvalidity, u) a.locations

-- The archive has every message of the mailbox with a UID below `n`.
unfoldable pub IsComplete : (ℕ → Type 0) → ℕ → ℕ → Archive → Type 0
IsComplete mail uidvalidity n a = (u : ℕ) → mail u → u < n → In (uidvalidity, u) a.locations

-- `IsCovered` before the first call and after each.
unfoldable pub IsAlwaysCovered : (ℕ → Type 0) → ℕ → ℕ → Archive → List Event → Type 0
unfolding IsCovered archive_after
IsAlwaysCovered mail uidvalidity id a [] = IsCovered mail uidvalidity a
IsAlwaysCovered mail uidvalidity id a (e ∷ events) =
    IsCovered mail uidvalidity (archive_after id a (e ∷ events))
    × IsAlwaysCovered mail uidvalidity id a events

-- The stream has a message with this UID and a body.
abbrev pub Offered : ℕ → List (Option Fetched) → Type 0
Offered u [] = ⊥
Offered u (none ∷ items) = Offered u items
Offered u (some f ∷ items) =
    ((f.uid ≡ some u) × (body : List ℕ) × (f.body ≡ some body)) ⊎ Offered u items

-- What RFC 3501 promises of the answers to UID FETCH: they have every message of the window and
-- none beyond it, and UIDs are positive.
pub record IsFaithful (server : Server) (mail : ℕ → Type 0) : Type 0 where
  pub complete :
      (from to : ℕ) (items : List (Option Fetched))
      → server.fetch from to ≡ stream items
      → (u : ℕ) → mail u
      → from ≤ u
      → u ≤ to
      → Offered u items
  pub bounded :
      (from to : ℕ) (items : List (Option Fetched))
      → server.fetch from to ≡ stream items
      → (u : ℕ) → Offered u items
      → u ≤ to
  pub positive : (u : ℕ) → mail u → 0 < u

-- `J` holds of the calls made so far after the action, also when it fails, and `Q` relates them to
-- what it returns.
abbrev pub Sat :
    {A : Type 0} → (List Event → Type 0) → (A → List Event → Type 0) → IoResult A × World → Type 0
Sat J Q (done a, w) = J w.events × Q a w.events
Sat J Q (failed e, w) = J w.events
Sat J Q (unfinished, w) = J w.events

done_inj : {A : Type 0} (a b : A) → done a ≡ done b → a ≡ b
done_inj a b e = ground arith

module _ {A B : Type 0} (J : List Event → Type 0) where
  pub Sat-bind :
      (Q : A → List Event → Type 0) (R : B → List Event → Type 0) (x : IoResult A × World)
      (f : A → Io B)
      → Sat J Q x
      → ((a : A) (w : World) → J w.events → Q a w.events → Sat J R (f a w))
      → Sat J R (continue x f)
  unfolding continue
  Sat-bind Q R (done a, w) f h k = k a w h.0 h.1
  Sat-bind Q R (failed e, w) f h k = h
  Sat-bind Q R (unfinished, w) f h k = h

module _ {A : Type 0} (J : List Event → Type 0) where
  pub Sat-weaken :
      (Q R : A → List Event → Type 0) (x : IoResult A × World)
      → Sat J Q x
      → ((a : A) (events : List Event) → Q a events → R a events)
      → Sat J R x
  Sat-weaken Q R (done a, w) h k = (h.0, k a w.events h.1)
  Sat-weaken Q R (failed e, w) h k = h
  Sat-weaken Q R (unfinished, w) h k = h

module _ (J : List Event → Type 0) (Q : Unit {0} → List Event → Type 0) where
  Sat-call_with :
      (l : List (Option Error)) (e : Event) (w : World)
      → J w.events
      → J (e ∷ w.events)
      → Q tt (e ∷ w.events)
      → Sat J Q (call_with l e w)
  unfolding call_with
  Sat-call_with [] e w h k q = (k, q)
  Sat-call_with (none ∷ l) e w h k q = (k, q)
  Sat-call_with (some x ∷ l) e w h k q = h

  -- A call either adds its event or fails.
  pub Sat-call :
      (e : Event) (w : World)
      → J w.events
      → J (e ∷ w.events)
      → Q tt (e ∷ w.events)
      → Sat J Q (call e w)
  unfolding call
  Sat-call e w h k q = Sat-call_with w.faults e w h k q

module _ {A : Type 0} (J : List Event → Type 0) (Q : A → List Event → Type 0) where
  pub Sat_always : (x : IoResult A × World) → Sat J Q x → J x.1.events
  Sat_always (done a, w) h = h.0
  Sat_always (failed e, w) h = h
  Sat_always (unfinished, w) h = h

  pub Sat_done : (x : IoResult A × World) (a : A) → x.0 ≡ done a → Sat J Q x → Q a x.1.events
  Sat_done (done b, w) a e h = subst (λ c. Q c w.events) (done_inj b a e) h.1
  Sat_done (failed x, w) a e h = ground arith
  Sat_done (unfinished, w) a e h = ground arith
