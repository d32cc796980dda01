-- ===== src/Imap/Sync/Windows.antt =====
-- The loops of `sync_folder` over a stream and over the windows.
use mail_keep.Base.{
  Bool-cases, Option-cases, ℕ, suc, zero, ◌≤◌, ◌<◌, max, ◌≡◌, refl, ap, ◌∙◌, true, false, Option,
  none, some, List, [], ◌∷◌, arith, ==_refl, In, inl, inr, ◌⊎◌,
}
use mail_keep.Imap.Sync.{
  Progress, ingest_items, fetch_window, window_end, is_last, checkpoint, sync_windows, request,
}
use mail_keep.Imap.Io.{
  Event, ingested, recorded, World, continue, call, Server, pure, raise, stream, failed_fetch,
  Stream, Fetched, FolderConfig, count_message, u32_max, saturating_add,
}
use mail_keep.Imap.Sync.Bounds.{from_le_end, end_le_max, last_le, next_le}
use mail_keep.Imap.Sync.Archive.{
  Sat-weaken, Archive, archive_after, IsCovered, IsAlwaysCovered, Offered, IsFaithful, Sat,
  Sat-bind, Sat-call,
}

-- an item without a UID or a body offers nothing
skip_uid :
    (f : Fetched) (items : List (Option Fetched))
    → f.uid ≡ none
    → (u : ℕ) → Offered u (some f ∷ items)
    → Offered u items
skip_uid f items e u (inl (x, b, y)) = ground arith
skip_uid f items e u (inr o) = o

skip_body :
    (f : Fetched) (items : List (Option Fetched))
    → f.body ≡ none
    → (u : ℕ) → Offered u (some f ∷ items)
    → Offered u items
skip_body f items e u (inl (x, b, y)) = ground arith
skip_body f items e u (inr o) = o

Stream-cases :
    (x : Stream) → (x ≡ failed_fetch) ⊎ ((items : List (Option Fetched)) × (x ≡ stream items))
Stream-cases failed_fetch = inl refl
Stream-cases (stream items) = inr (items, refl)

from_cases : (from u : ℕ) → (u < from) ⊎ (from ≤ u)
from_cases from u = ground arith

some_uid : (a b : ℕ) (o : Option ℕ) → o ≡ some a → o ≡ some b → a ≡ b
some_uid a b o e e' = ground arith

module _ (server : Server) (account_id : ℕ) (folder : FolderConfig) (uidvalidity : ℕ)
    (mail : ℕ → Type 0) (start : Archive) where
  abbrev pub Now : List Event → Archive
  Now events = archive_after folder.id start events

  abbrev pub Safe : List Event → Type 0
  Safe events = IsAlwaysCovered mail uidvalidity folder.id start events

  -- the archive has every message below `n`
  abbrev pub Below : ℕ → List Event → Type 0
  Below n events = (u : ℕ) → mail u → u < n → In (uidvalidity, u) (Now events).locations

  -- the archive's cursor
  abbrev pub At : ℕ → List Event → Type 0
  At c events = ((Now events).uidvalidity ≡ some uidvalidity) × ((Now events).last_uid ≡ c)

  pub record Synced (n : ℕ) (p : Progress) (events : List Event) : Type 0 where
    pub below : Below n events
    pub cursor : p.fetched_any ≡ false → 0 < p.ingested → At p.high events

  Safe-head : (events : List Event) → Safe events → IsCovered mail uidvalidity (Now events)
  unfolding IsAlwaysCovered archive_after
  Safe-head [] h = h
  Safe-head (e ∷ events) h = h.0

  ingested_now :
      (f : Fetched) (u : ℕ) (body : List ℕ) (events : List Event)
      → Now (ingested (request server account_id folder uidvalidity f u body) ∷ events)
        ≡ record (Now events) { locations = (uidvalidity, u) ∷ (Now events).locations }
  unfolding archive_after request
  ingested_now f u body events = rw (==_refl folder.id)

  pub recorded_now :
      (c : ℕ) (events : List Event)
      → Now (recorded folder.id uidvalidity c ∷ events)
        ≡ record (Now events) { uidvalidity = some uidvalidity; last_uid = c }
  unfolding archive_after
  recorded_now c events = rw (==_refl folder.id)

  Safe-ingested :
      (f : Fetched) (u : ℕ) (body : List ℕ) (events : List Event)
      → Safe events
      → Safe (ingested (request server account_id folder uidvalidity f u body) ∷ events)
  unfolding IsAlwaysCovered IsCovered
  Safe-ingested f u body events h =
      (rw (ingested_now f u body events) (λ e v m le. inr (Safe-head events h e v m le)), h)

  pub Safe-recorded :
      (c : ℕ) (events : List Event)
      → Safe events
      → ((u : ℕ) → mail u → u ≤ c → In (uidvalidity, u) (Now events).locations)
      → Safe (recorded folder.id uidvalidity c ∷ events)
  unfolding IsAlwaysCovered IsCovered
  Safe-recorded c events h k = (rw (recorded_now c events) (λ e v m le. k v m le), h)

  abbrev pub Has : ℕ → List Event → Type 0
  Has u events = In (uidvalidity, u) (Now events).locations

  -- what the loop over a stream with `items` brings about
  pub record Taken (bound : ℕ) (items : List (Option Fetched)) (p : Progress) (before : List Event)
      (p' : Progress) (events : List Event) : Type 0 where
    pub kept : (u : ℕ) → Has u before → Has u events
    pub offered : (u : ℕ) → Offered u items → Has u events
    pub high : p.high ≤ bound → p'.high ≤ bound
    pub cursor :
        (p.fetched_any ≡ false → 0 < p.ingested → At p.high before)
        → p'.fetched_any ≡ false
        → 0 < p'.ingested
        → At p'.high events

  abbrev next_progress : Progress → ℕ → Progress
  next_progress p uid = record {
    high = max p.high uid;
    fetched_any = true;
    ingested = suc p.ingested;
  }

  -- an item that is skipped offers nothing
  Taken-skip :
      (bound : ℕ) (f : Fetched) (items : List (Option Fetched)) (p : Progress) (before : List Event)
      (p' : Progress) (events : List Event)
      → ((u : ℕ) → Offered u (some f ∷ items) → Offered u items)
      → Taken bound items p before p' events
      → Taken bound (some f ∷ items) p before p' events
  Taken-skip bound f items p before p' events skip t = record {
    kept = t.kept;
    offered = λ u o. t.offered u (skip u o);
    high = t.high;
    cursor = t.cursor;
  }

  Taken-step :
      (bound : ℕ) (f : Fetched) (uid : ℕ) (body : List ℕ) (items : List (Option Fetched))
      (p : Progress) (before middle : List Event) (p' : Progress) (events : List Event)
      → middle ≡ ingested (request server account_id folder uidvalidity f uid body) ∷ before
      → uid ≤ bound
      → f.uid ≡ some uid
      → Taken bound items (next_progress p uid) middle p' events
      → Taken bound (some f ∷ items) p before p' events
  Taken-step bound f uid body items p before middle p' events e le eu t = record {
    kept = λ u x. t.kept u (older u x);
    offered = offered;
    high = λ x. t.high (omega (arith, x, le));
    cursor = λ _. t.cursor (λ x. ground arith);
  }
    where
      now :
          Now middle
          ≡ record (Now before) { locations = (uidvalidity, uid) ∷ (Now before).locations }
      now = ap Now e ∙ ingested_now f uid body before

      older : (u : ℕ) → Has u before → Has u middle
      older u x = rw now (inr x)

      offered : (u : ℕ) → Offered u (some f ∷ items) → Has u events
      offered u (inl (x, b, y)) =
          t.kept u (rw now (inl (ap (λ v. (uidvalidity, v)) (some_uid u uid f.uid x eu))))
      offered u (inr o) = t.offered u o

  items_Sat :
      (bound : ℕ) (items : List (Option Fetched)) (p : Progress) (w : World)
      → ((u : ℕ) → Offered u items → u ≤ bound)
      → Safe w.events
      → Sat Safe
          (Taken bound items p w.events)
          (ingest_items server account_id folder uidvalidity items p w)
  unfolding ingest_items pure raise count_message continue
  items_Sat bound [] p w b h =
      (h, record { kept = λ u x. x; offered = λ u x. absurd x; high = λ x. x; cursor = λ x. x })
  items_Sat bound (none ∷ items) p w b h = h
  items_Sat bound (some f ∷ items) p w b h = elim (Option-cases f.uid) [
    | inl e ↦
        rw (ingest_items, e)
          (Sat-weaken Safe _ _ _ (items_Sat bound items p w (λ u o. b u (inr o)) h) (λ p' events t.
            Taken-skip bound (record f { uid = none }) items p w.events p' events
              (skip_uid (record f { uid = none }) items refl) t))
    | inr (uid, e) ↦ elim (Option-cases f.body) [
      | inl e' ↦
          rw (ingest_items, e, e')
            (Sat-weaken Safe _ _ _ (items_Sat bound items p w (λ u o. b u (inr o)) h)
              (λ p' events t.
                Taken-skip bound (record f { uid = some uid; body = none }) items p w.events p'
                  events (skip_body (record f { uid = some uid; body = none }) items refl) t))
      | inr (body, e') ↦
          rw (ingest_items, e, e')
            (Sat-bind Safe
              (λ _ events.
                events
                ≡ ingested (request server account_id folder uidvalidity f uid body) ∷ w.events)
              _ (call (ingested (request server account_id folder uidvalidity f uid body)) w) _
              (Sat-call Safe _ _ w h (Safe-ingested f uid body w.events h) refl)
              (λ _ v s q.
                Sat-weaken Safe _ _ _
                  (items_Sat bound items (next_progress p uid) _ (λ u o. b u (inr o)) s)
                  (λ p' events t.
                    Taken-step bound _ uid body items p w.events v.events p' events q
                      (b uid (inl (e, body, e'))) refl t)))
    ]
  ]

  -- what is known after the window that ends at `to`
  pub record Window (from to : ℕ) (p : Progress) (before : List Event) (p' : Progress)
      (events : List Event) : Type 0 where
    pub below : Below from before → Below (suc to) events
    pub high : p.high ≤ to → p'.high ≤ to
    pub cursor :
        (p.fetched_any ≡ false → 0 < p.ingested → At p.high before)
        → p'.fetched_any ≡ false
        → 0 < p'.ingested
        → At p'.high events

  -- what is known after the last window
  pub record Done (upper : Option ℕ) (p : Progress) (events : List Event) : Type 0 where
    pub cursor : 0 < p.ingested → At p.high events
    pub below : Below (suc p.high) events
    pub complete : (u : ℕ) → upper ≡ some u → Below (suc u) events

  checkpoint-Sat :
      (to : ℕ) (p : Progress) (w : World)
      → Safe w.events
      → Below (suc to) w.events
      → p.high ≤ to
      → (p.fetched_any ≡ false → 0 < p.ingested → At p.high w.events)
      → Sat Safe
          (λ _ events. Below (suc to) events × (0 < p.ingested → At p.high events))
          (checkpoint server account_id folder uidvalidity p w)
  unfolding checkpoint pure
  checkpoint-Sat to p w h b le c = elim (Bool-cases p.fetched_any) [
    | inr e ↦ rw (checkpoint, e) (h, (b, c e))
    | inl e ↦
        rw (checkpoint, e)
          (Sat-call Safe _ (recorded folder.id uidvalidity p.high) w h
            (Safe-recorded p.high w.events h (λ u m x. b u m (omega (arith, x, le))))
            (
              (rw (recorded_now p.high w.events) b),
              (λ _. rw (recorded_now p.high w.events) (refl, refl)),
            ))
  ]

  module _ (faithful : IsFaithful server mail) where
    Window-Sat :
        (from to : ℕ) (p : Progress) (w : World)
        → Safe w.events
        → Sat Safe
            (Window from to p w.events)
            (fetch_window server account_id folder uidvalidity from to p w)
    unfolding fetch_window raise
    Window-Sat from to p w h = elim (Stream-cases (server.fetch from to)) [
      | inl e ↦ rw (fetch_window, e) h
      | inr (items, e) ↦
          rw (fetch_window, e)
            (Sat-weaken Safe _ _ _ (items_Sat to items p w (faithful.bounded from to items e) h)
              (λ p' events t. record {
                below = λ b u m lt. elim (from_cases from u) [
                  | inl x ↦ t.kept u (b u m x)
                  | inr x ↦
                      t.offered u (faithful.complete from to items e u m x (omega (arith, lt)))
                ];
                high = t.high;
                cursor = t.cursor;
              }))
    ]

    -- The loop keeps the archive covered and ends with every message up to `upper`.
    pub windows_Sat :
        (fuel : ℕ) (upper : Option ℕ) (from : ℕ) (p : Progress) (w : World)
        → from ≤ u32_max
        → ((u : ℕ) → upper ≡ some u → from ≤ u)
        → Safe w.events
        → Below from w.events
        → p.high ≤ from
        → (0 < p.ingested → At p.high w.events)
        → Sat Safe
            (Done upper)
            (sync_windows server account_id folder uidvalidity fuel upper from p w)
    unfolding sync_windows
    windows_Sat zero upper from p w small ub h b le c = h
    windows_Sat (suc fuel) upper from p w small ub h b le c =
        Sat-bind Safe (Window from to (record p { fetched_any = false }) w.events) _ _ _
          (Window-Sat from to (record p { fetched_any = false }) w h)
          (λ p' v s q.
            Sat-bind Safe
              (λ _ events. Below (suc to) events × (0 < p'.ingested → At p'.high events)) _ _ _
              (checkpoint-Sat to p' v s (q.below b)
                (q.high (omega (arith, le, from_le_end upper from small ub))) (q.cursor (λ _. c)))
              (λ _ v' s' (b', c'). elim (Bool-cases (is_last upper to p'.fetched_any)) [
                | inl e ↦ rw e (
                  s',
                  record {
                    cursor = c';
                    below = λ u m x. b' u m (
                        omega
                          (arith, x, q.high (omega (arith, le, from_le_end upper from small ub))));
                    complete = λ u eu v m x.
                        b' v m (omega (arith, x, last_le upper to p'.fetched_any e u eu));
                  },
                )
                | inr e ↦ rw e (
                    windows_Sat fuel upper (saturating_add to 1) p' v' (omega arith)
                      (λ u eu. omega (arith, next_le upper to p'.fetched_any e u eu)) s'
                      (λ u m x. b' u m (omega (arith, x)))
                      (omega (
                        arith,
                        end_le_max upper from,
                        q.high (omega (arith, le, from_le_end upper from small ub)),
                      ))
                      c')
              ]))
      where
        to : ℕ
        to = window_end upper from
