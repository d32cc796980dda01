-- ===== src/Imap/Sync.antt =====
-- crates/imap/src/sync.rs: one folder is brought up to date, in windows of UIDs. Imap.Io has the
-- server and the calls of the services.
pub mod Halts
pub mod Bounds
pub mod Archive
pub mod Windows
pub mod Folder
pub mod Ends
pub mod Poll
pub mod Idle
mod Tests
use mail_keep.Base.{
  option_map, zero, ℕ, suc, ◌+◌, ◌-◌, max, min, String, Bool, true, false, ◌||◌, not, Option, none,
  some, List, [], ◌∷◌, ◌++◌, ltb, leb, ◌==◌, if◌then◌else◌,
}
use mail_keep.Error.{Error, infrastructure, folder_not_found}
use mail_keep.Imap.Io.{
  ◌>>=◌, u32_max, saturating_add, fetch_batch, map_flags, Fetched, IngestRequest, FolderConfig,
  mailbox, refused, broken, failed_fetch, stream, Server, syncing, error, ingested, recorded,
  dropped, failed, unfinished, Io, pure, raise, continue, call, set_state, count_message,
}

-- The variables that the loop over a stream changes.
pub record Progress : Type 0 where
  pub high : ℕ
  pub fetched_any : Bool
  pub ingested : ℕ

-- the end of the window that begins at `from`
unfoldable pub window_end : Option ℕ → ℕ → ℕ
window_end none from = saturating_add from (fetch_batch - 1)
window_end (some upper) from = min (saturating_add from (fetch_batch - 1)) upper

-- whether a window that ends at `to` is the last one
unfoldable pub is_last : Option ℕ → ℕ → Bool → Bool
is_last (some upper) to fetched_any = leb upper to
is_last none to fetched_any = not fetched_any || to == u32_max

-- whether nothing is there to fetch from `from` on
unfoldable pub nothing_new : Option ℕ → ℕ → Bool
nothing_new none from = false
nothing_new (some upper) from = ltb upper from

-- enough for every window: each is followed by one that begins later, up to `u32_max`
unfoldable pub sync_fuel : ℕ
sync_fuel = suc u32_max

-- the variables of the loops at their start
abbrev pub unstarted : ℕ → Progress
unstarted last_uid = record { high = last_uid; fetched_any = false; ingested = 0 }

-- `handle_uidvalidity_change`
unfoldable pub handle_uidvalidity_change : ℕ → ℕ → Io (Unit {0})
unfolding call continue
handle_uidvalidity_change folder_id new_uidvalidity = do
  _ ← call (recorded folder_id new_uidvalidity 0)
  call (dropped folder_id)

module _ (server : Server) (account_id : ℕ) (folder : FolderConfig) (uidvalidity : ℕ) where
  -- the request for one item of a stream
  unfoldable pub request : Fetched → ℕ → List ℕ → IngestRequest
  request f uid body = record {
    account_id = account_id;
    folder_id = folder.id;
    uid = uid;
    uidvalidity = uidvalidity;
    internal_date = f.internal_date;
    flags = map_flags f.flags;
    raw_bytes = body;
  }

  -- the loop over a stream
  unfoldable pub ingest_items : List (Option Fetched) → Progress → Io Progress
  unfolding call continue pure raise count_message request
  ingest_items [] p = pure p
  ingest_items (none ∷ items) p = raise (infrastructure "FETCH item error")
  ingest_items (some f ∷ items) p = elim f.uid [
    | none ↦ ingest_items items p
    | some uid ↦ elim f.body [
      | none ↦ ingest_items items p
      | some body ↦ do
        _ ← call (ingested (request f uid body))
        _ ← count_message
        ingest_items items
            (record { high = max p.high uid; fetched_any = true; ingested = suc p.ingested })
    ]
  ]

  -- UID FETCH of one window
  unfoldable pub fetch_window : ℕ → ℕ → Progress → Io Progress
  unfolding ingest_items raise
  fetch_window from to p = elim (server.fetch from to) [
    | failed_fetch ↦ raise (infrastructure "UID FETCH failed")
    | stream items ↦ ingest_items items p
  ]

  -- the record of a window in which a message was ingested
  unfoldable pub checkpoint : Progress → Io (Unit {0})
  unfolding call pure
  checkpoint p = elim p.fetched_any [
    | false ↦ pure tt
    | true ↦ call (recorded folder.id uidvalidity p.high)
  ]

  -- the loop over the windows, on fuel
  unfoldable pub sync_windows : ℕ → Option ℕ → ℕ → Progress → Io Progress
  unfolding fetch_window checkpoint window_end is_last continue pure
  sync_windows zero upper from p w = (unfinished, w)
  sync_windows (suc fuel) upper from p w =
      (do
        p' ← fetch_window from (window_end upper from) (record p { fetched_any = false })
        _ ← checkpoint p'
        elim (is_last upper (window_end upper from) p'.fetched_any) [
          | true ↦ pure p'
          | false ↦ sync_windows fuel upper (saturating_add (window_end upper from) 1) p'
        ])
        w

  -- what follows the loop
  unfoldable pub finish_sync : Progress → Io (ℕ × ℕ)
  unfolding call continue pure
  finish_sync p = elim (ltb 0 p.ingested) [
    | true ↦ pure (p.high, uidvalidity)
    | false ↦ do _ ← call (recorded folder.id uidvalidity p.high); pure (p.high, uidvalidity)
  ]

  -- the part of `sync_folder` from its UIDVALIDITY check to its end, for a cursor `last_uid`
  unfoldable pub sync_from : Option ℕ → ℕ → Io (ℕ × ℕ)
  unfolding sync_windows finish_sync call continue pure set_state nothing_new
  sync_from upper last_uid = do
    _ ← set_state syncing
    elim (nothing_new upper (saturating_add last_uid 1)) [
      | true ↦ do _ ← call (recorded folder.id uidvalidity last_uid); pure (last_uid, uidvalidity)
      | false ↦ do
        p ← sync_windows sync_fuel upper (saturating_add last_uid 1) (unstarted last_uid)
        finish_sync p
    ]

  -- whether the server has given the folder another UIDVALIDITY
  unfoldable pub rolled_over : Bool
  rolled_over = elim folder.uidvalidity [ none ↦ false | some known ↦ not (known == uidvalidity) ]

  -- `sync_folder` after SELECT
  unfoldable pub sync_selected : Option ℕ → Io (ℕ × ℕ)
  unfolding sync_from handle_uidvalidity_change rolled_over continue
  sync_selected uid_next =
      let upper = option_map (λ n. n - 1) uid_next in
      elim rolled_over [
        | true ↦ do _ ← handle_uidvalidity_change folder.id uidvalidity; sync_from upper 0
        | false ↦ sync_from upper folder.last_uid
      ]

-- `sync_folder`
unfoldable pub sync_folder : Server → ℕ → FolderConfig → Io (ℕ × ℕ)
unfolding sync_selected raise
sync_folder server account_id folder = elim (server.select folder.path) [
  | refused ↦ raise (folder_not_found folder.path)
  | broken ↦ raise (infrastructure "SELECT failed")
  | mailbox none uid_next ↦ raise (infrastructure "server returned no UIDVALIDITY")
  | mailbox (some uidvalidity) uid_next ↦
      sync_selected server account_id folder uidvalidity uid_next
]
