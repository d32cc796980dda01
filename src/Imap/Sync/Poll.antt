-- ===== src/Imap/Sync/Poll.antt =====
-- `poll_task` and `backoff_delay` of crates/imap/src/sync.rs: the passes over an account's folders.
use mathlib.Core.Path.{subst}
use native.Mathlib.Nat.{pow-suc}
use mail_keep.Base.{
  zero, ℕ, suc, ◌+◌, ◌-◌, ◌*◌, ◌^◌, ◌≤◌, min, ◌≡◌, Bool, true, false, Option, none, some, List, [],
  ◌∷◌, leb, if◌then◌else◌, arith,
}
use mail_keep.Error.{Error, folder_not_found}
use mail_keep.Imap.Sync.{sync_folder}
use mail_keep.Imap.Io.{
  FolderConfig, Server, World, SyncStatus, connecting, idle, error, IoResult, done, failed,
  unfinished, Io, pure, raise, saturating_add,
}

abbrev pub failure_error_threshold : ℕ
failure_error_threshold = 5

-- `backoff_delay`, in seconds; its product stays far below 2 ^ 64
unfoldable pub backoff_delay : ℕ → ℕ
backoff_delay consecutive_failures = min (5 * 2 ^ min (consecutive_failures - 1) 6) 300

-- The arms of the match on the result for one folder: a folder that is gone is skipped.
unfoldable pub folder_result :
    IoResult (ℕ × ℕ) × World → Io (Unit {0}) → IoResult (Unit {0}) × World
folder_result (done _, w) rest = rest w
folder_result (failed (folder_not_found _), w) rest = rest w
folder_result (failed e, w) rest = (failed e, w)
folder_result (unfinished, w) rest = (unfinished, w)

module _ (server : Server) (account_id : ℕ) where
  -- the loop over the folders; the list says what `is_cancelled` answers before each folder, and
  -- `false` when it is exhausted
  unfoldable pub poll_folders : List FolderConfig → List Bool → Io (Unit {0})
  unfolding folder_result sync_folder pure
  poll_folders [] cancelled w = (done tt, w)
  poll_folders (f ∷ folders) [] w =
      folder_result (sync_folder server account_id f w) (poll_folders folders [])
  poll_folders (f ∷ folders) (false ∷ cancelled) w =
      folder_result (sync_folder server account_id f w) (poll_folders folders cancelled)
  poll_folders (f ∷ folders) (true ∷ cancelled) w = (done tt, w)

  -- one pass; `connected` is the error of `connect_and_login`, if it fails
  unfoldable pub poll_pass : Option Error → List FolderConfig → List Bool → Io (Unit {0})
  unfolding poll_folders raise
  poll_pass none folders cancelled = poll_folders folders cancelled
  poll_pass (some e) folders cancelled = raise e

-- What one round of the loop leaves: the failure counter and how long it waits.
pub record Round : Type 0 where
  pub failures : ℕ
  pub wait : ℕ

-- the match on the result of a pass
unfoldable pub settle : ℕ → ℕ → IoResult (Unit {0}) → SyncStatus → Round × SyncStatus
unfolding backoff_delay
settle poll_interval failures (done _) s =
    (record { failures = 0; wait = poll_interval }, record s { state = idle })
settle poll_interval failures (failed e) s =
    let n = saturating_add failures 1 in
    (
      record { failures = n; wait = backoff_delay n },
      record s {
        state = if leb failure_error_threshold n then error else s.state;
        last_error = some e;
      },
    )
settle poll_interval failures unfinished s = (record { failures = failures; wait = 0 }, s)

-- one round of the loop
unfoldable pub poll_round :
    Server → ℕ → ℕ → Option Error → List FolderConfig → List Bool → ℕ → World → Round × World
unfolding poll_pass settle
poll_round server account_id poll_interval connected folders cancelled failures w =
    let w' = record w { status = record w.status { state = connecting } } in
    let (r, w'') = poll_pass server account_id connected folders cancelled w' in
    let (round, s) = settle poll_interval failures r w''.status in
    (round, record w'' { status = s })

pow_positive : (k : ℕ) → 1 ≤ 2 ^ k
pow_positive zero = omega arith
pow_positive (suc k) = omega (arith, pow_positive k)

pow_grows : (k d : ℕ) → 2 ^ k ≤ 2 ^ (d + k)
pow_grows k zero = let e : 0 + k ≡ k = omega arith in rw e (omega arith)
pow_grows k (suc d) =
    let e : suc d + k ≡ suc (d + k) = omega arith in
    rw e (omega (arith, pow_grows k d, pow-suc 2 (d + k)))

pow_mono : (k l : ℕ) → k ≤ l → 2 ^ k ≤ 2 ^ l
pow_mono k l h = subst (λ m. 2 ^ k ≤ 2 ^ m) (split k l h) (pow_grows k (l - k))
  where
    split : (k l : ℕ) → k ≤ l → (l - k) + k ≡ l
    split k l h = omega (arith, h)

-- The wait grows with the number of failures in a row, and lies between 5 seconds and 5 minutes.
pub backoff_delay_bounds :
    (m n : ℕ)
    → m ≤ n
    → (5 ≤ backoff_delay m) × (backoff_delay m ≤ backoff_delay n) × (backoff_delay n ≤ 300)
unfolding backoff_delay
backoff_delay_bounds m n h = (
  omega (arith, pow_positive (min (m - 1) 6)),
  omega (arith, pow_mono (min (m - 1) 6) (min (n - 1) 6) (omega (arith, h))),
  omega arith,
)
