-- ===== src/Imap/Sync/Ends.antt =====
-- `sync_folder` of crates/imap/src/sync.rs: its loops and their fuel.
use mail_keep.Base.{
  ◌⊎◌, ap, ◌∙◌, ℕ, suc, zero, ◌+◌, ◌-◌, ◌≤◌, ◌<◌, ◌≡◌, refl, false, Bool-cases, Option, none, some,
  option_map, List, [], ◌∷◌, arith, ltb, inl, inr, Option-cases,
}
use mail_keep.Error.{Error}
use mail_keep.Imap.Sync.{
  sync_folder, Progress, ingest_items, fetch_window, window_end, is_last, checkpoint, sync_windows,
  finish_sync, sync_from, sync_selected, rolled_over, handle_uidvalidity_change, nothing_new,
  sync_fuel, unstarted, request,
}
use mail_keep.Imap.Io.{
  Selected, mailbox, refused, broken, ingested, recorded, dropped, World, IoResult, continue, call,
  Server, pure, raise, Stream, stream, failed_fetch, Fetched, FolderConfig, count_message, u32_max,
  saturating_add, set_state,
}
use mail_keep.Imap.Sync.Bounds.{from_le_end, end_le_max, next_le, something_le}
use mail_keep.Imap.Sync.Halts.{Halts, Stream-cases, Halts-bind, call-Halts, before_max, upper_max}

-- The action does not run out of fuel.
module _ (server : Server) (account_id : ℕ) (folder : FolderConfig) (uidvalidity : ℕ) where
  items-Halts :
      (items : List (Option Fetched)) (p : Progress) (w : World)
      → Halts (ingest_items server account_id folder uidvalidity items p w)
  unfolding ingest_items pure raise count_message continue
  items-Halts [] p w = tt
  items-Halts (none ∷ items) p w = tt
  items-Halts (some f ∷ items) p w = elim (Option-cases f.uid) [
    | inl e ↦ rw (ingest_items, e) (items-Halts items p w)
    | inr (uid, e) ↦ elim (Option-cases f.body) [
      | inl e' ↦ rw (ingest_items, e, e') (items-Halts items p w)
      | inr (body, e') ↦
          rw (ingest_items, e, e')
            (Halts-bind
              (call (ingested (request server account_id folder uidvalidity f uid body)) w) _
              (call-Halts _ w) (λ _ v. items-Halts items _ _))
    ]
  ]

  stream-Halts :
      (s : Stream) (p : Progress) (w : World)
      → Halts (elim s as (λ _. IoResult Progress × World) [
        | failed_fetch ↦ raise (Error.infrastructure "UID FETCH failed") w
        | stream items ↦ ingest_items server account_id folder uidvalidity items p w
      ])
  unfolding raise
  stream-Halts failed_fetch p w = tt
  stream-Halts (stream items) p w = items-Halts items p w

  window-Halts :
      (from to : ℕ) (p : Progress) (w : World)
      → Halts (fetch_window server account_id folder uidvalidity from to p w)
  unfolding fetch_window
  window-Halts from to p w = elim (Stream-cases (server.fetch from to)) [
    | inl e ↦ rw (fetch_window, e) (stream-Halts failed_fetch p w)
    | inr (items, e) ↦ rw (fetch_window, e) (stream-Halts (stream items) p w)
  ]

  checkpoint-Halts :
      (p : Progress) (w : World) → Halts (checkpoint server account_id folder uidvalidity p w)
  unfolding checkpoint pure
  checkpoint-Halts p w = elim (Bool-cases p.fetched_any) [
    | inr e ↦ rw (checkpoint, e) tt
    | inl e ↦ rw (checkpoint, e) (call-Halts (recorded folder.id uidvalidity p.high) w)
  ]

  -- Each window begins later than the one before it.
  windows-Halts :
      (fuel : ℕ) (upper : Option ℕ) (from : ℕ) (p : Progress) (w : World)
      → from ≤ u32_max
      → u32_max < fuel + from
      → ((u : ℕ) → upper ≡ some u → (from ≤ u) × (u ≤ u32_max))
      → Halts (sync_windows server account_id folder uidvalidity fuel upper from p w)
  unfolding sync_windows pure
  windows-Halts zero upper from p w small fuel b = omega (arith, small, fuel)
  windows-Halts (suc fuel) upper from p w small left b =
      Halts-bind
        (fetch_window server account_id folder uidvalidity from (window_end upper from)
          (record p { fetched_any = false }) w)
        _ (window-Halts from (window_end upper from) (record p { fetched_any = false }) w)
        (λ p' v.
          Halts-bind (checkpoint server account_id folder uidvalidity p' v) _
            (checkpoint-Halts p' v)
            (λ _ v'. elim (Bool-cases (is_last upper (window_end upper from) p'.fetched_any)) [
              | inl e ↦ rw e tt
              | inr e ↦ rw e (
                  windows-Halts fuel upper (saturating_add (window_end upper from) 1) p' v'
                    (omega arith)
                    (omega (
                      arith,
                      left,
                      from_le_end upper from small (λ u eu. (b u eu).0),
                      before_max upper (window_end upper from) p'.fetched_any
                          (end_le_max upper from) e (λ u eu. (b u eu).1),
                    ))
                    (λ u eu. (
                      omega (arith, next_le upper (window_end upper from) p'.fetched_any e u eu),
                      (b u eu).1,
                    )))
            ]))

  record-Halts :
      (c high : ℕ) (w : World)
      → Halts (
          continue
            (call (recorded folder.id uidvalidity c) w)
            (λ _. pure {A = ℕ × ℕ} (high, uidvalidity)))
  unfolding pure
  record-Halts c high w =
      Halts-bind (call (recorded folder.id uidvalidity c) w)
        (λ _. pure {A = ℕ × ℕ} (high, uidvalidity)) (call-Halts _ w) (λ _ v. tt)

  finish_sync-Halts :
      (p : Progress) (w : World) → Halts (finish_sync server account_id folder uidvalidity p w)
  unfolding pure finish_sync
  finish_sync-Halts p w = elim (Bool-cases (ltb 0 p.ingested)) [
    | inl e ↦ rw (finish_sync, e) tt
    | inr e ↦ rw (finish_sync, e) (record-Halts p.high p.high w)
  ]

  loop-Halts :
      (fuel : ℕ) (upper : Option ℕ) (last_uid : ℕ) (w : World)
      → u32_max < fuel + saturating_add last_uid 1
      → ((u : ℕ) → upper ≡ some u → (saturating_add last_uid 1 ≤ u) × (u ≤ u32_max))
      → Halts (
          continue
            (sync_windows server account_id folder uidvalidity fuel upper
              (saturating_add last_uid 1)
              (unstarted last_uid)
              w)
            (finish_sync server account_id folder uidvalidity))
  loop-Halts fuel upper last_uid w left b =
      Halts-bind
        (sync_windows server account_id folder uidvalidity fuel upper (saturating_add last_uid 1)
          (unstarted last_uid) w)
        _
        (windows-Halts fuel upper (saturating_add last_uid 1) (unstarted last_uid) w (omega arith)
          left b)
        finish_sync-Halts

  fuel_enough : (n : ℕ) → u32_max < sync_fuel + n
  unfolding sync_fuel
  fuel_enough n = omega arith

  sync_from-Halts :
      (upper : Option ℕ) (last_uid : ℕ) (w : World)
      → ((u : ℕ) → upper ≡ some u → u ≤ u32_max)
      → Halts (sync_from server account_id folder uidvalidity upper last_uid w)
  unfolding sync_from set_state continue pure
  sync_from-Halts upper last_uid w b =
      elim (Bool-cases (nothing_new upper (saturating_add last_uid 1))) [
        | inl e ↦ rw e (record-Halts last_uid last_uid _)
        | inr e ↦ rw e (
            loop-Halts sync_fuel upper last_uid _ (fuel_enough (saturating_add last_uid 1))
              (λ u eu. (something_le upper (saturating_add last_uid 1) e u eu, b u eu)))
      ]

  selected-Halts :
      (uid_next : Option ℕ) (w : World)
      → ((n : ℕ) → uid_next ≡ some n → n ≤ u32_max)
      → Halts (sync_selected server account_id folder uidvalidity uid_next w)
  unfolding sync_selected handle_uidvalidity_change
  selected-Halts uid_next w b =
      elim (Bool-cases (rolled_over server account_id folder uidvalidity)) [
        | inl r ↦
            rw (sync_selected, r)
              (Halts-bind (handle_uidvalidity_change folder.id uidvalidity w) _ (handle-Halts w)
                (λ _ v.
                  sync_from-Halts (option_map (λ n. n - 1) uid_next) 0 v (upper_max uid_next b)))
        | inr r ↦
            rw (sync_selected, r)
              (sync_from-Halts (option_map (λ n. n - 1) uid_next) folder.last_uid w
                (upper_max uid_next b))
      ]
    where
      handle-Halts : (v : World) → Halts (handle_uidvalidity_change folder.id uidvalidity v)
      handle-Halts v =
          (Halts-bind (call (recorded folder.id uidvalidity 0) v) _ (call-Halts _ v)
            (λ _ v'. call-Halts (dropped folder.id) v'))

Selected-cases :
    (x : Selected)
    → ((x ≡ refused) ⊎ (x ≡ broken))
      ⊎ ((n : Option ℕ) × (x ≡ mailbox none n))
      ⊎ ((v : ℕ) × (n : Option ℕ) × (x ≡ mailbox (some v) n))
Selected-cases refused = inl (inl refl)
Selected-cases broken = inl (inr refl)
Selected-cases (mailbox none n) = inr (inl (n, refl))
Selected-cases (mailbox (some v) n) = inr (inr (v, n, refl))

-- `sync_folder` ends, whatever the server answers and whichever calls fail, if UIDNEXT is a 32-bit
-- number: the fuel of the model is never used up.
pub sync_folder-Halts :
    (server : Server) (account_id : ℕ) (folder : FolderConfig) (w : World)
    → ((validity : Option ℕ) (n : ℕ)
        → server.select folder.path ≡ mailbox validity (some n)
        → n ≤ u32_max)
    → Halts (sync_folder server account_id folder w)
unfolding raise sync_folder
sync_folder-Halts server account_id folder w b = elim (Selected-cases (server.select folder.path)) [
  | inl (inl e) ↦ rw (sync_folder, e) tt
  | inl (inr e) ↦ rw (sync_folder, e) tt
  | inr (inl (n, e)) ↦ rw (sync_folder, e) tt
  | inr (inr (v, n, e)) ↦
      rw (sync_folder, e)
        (selected-Halts server account_id folder v n w
          (λ m em. b (some v) m (e ∙ ap (mailbox (some v)) em)))
]
