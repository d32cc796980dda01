-- ===== src/Imap/Sync/Idle.antt =====
-- `idle_task` of crates/imap/src/sync.rs: the folder that is kept in sync by IMAP IDLE. What the
-- server, the network and a cancellation do is a script: a list of attempts to connect, each with
-- the turns of its inner loop. A script that is over leaves the task `unfinished`, as it still runs.
use mail_keep.Base.{
  ℕ, suc, ◌+◌, ◌≤◌, ◌≡◌, ap, ◌∙◌, Bool, false, Option, none, some, List, [], ◌∷◌, ◌++◌, leb,
  if◌then◌else◌, length, map, arith,
}
use mail_keep.Error.{Error, infrastructure}
use mail_keep.Imap.Sync.{sync_folder}
use mail_keep.Imap.Io.{
  FolderConfig, Server, World, SyncState, IoResult, done, failed, unfinished, saturating_add,
  u32_max,
}
use mail_keep.Imap.Sync.Poll.{failure_error_threshold}

-- how a wait in IDLE ends: with news or the timeout, with an error, or by the cancellation
pub data Wait : Type 0 where
  woken broken interrupted : Wait

-- One turn of the inner loop: whether it starts cancelled, the server at its synchronization, and
-- whether `init` and `done` fail.
pub record Turn : Type 0 where
  pub cancelled : Bool
  pub server : Server
  pub init_fails : Bool
  pub wait : Wait
  pub done_fails : Bool

-- One turn of the outer loop: whether it starts cancelled, the error of `connect_and_login`, the
-- turns of the inner loop, and whether the wait after a failure is cancelled.
pub record Attempt : Type 0 where
  pub cancelled : Bool
  pub connected : Option Error
  pub turns : List Turn
  pub stopped : Bool

-- how a loop ends, with the failure counter
pub record IdleEnd : Type 0 where
  pub result : IoResult (Unit {0})
  pub failures : ℕ
  pub world : World

abbrev pub ends : IoResult (Unit {0}) → ℕ → World → IdleEnd
ends r n w = record { result = r; failures = n; world = w }

abbrev pub set_idle_state : SyncState → World → World
set_idle_state s w = record w { status = record w.status { state = s } }

-- DONE, after which the loop goes on or is left
unfoldable pub recover : Turn → IdleEnd → World → IdleEnd
recover t next w =
    if t.done_fails then ends (failed (infrastructure "IMAP IDLE done failed")) 0 w else next

-- IDLE, for the cursor that the synchronization returned
unfoldable pub park : Turn → (World → IdleEnd) → World → IdleEnd
unfolding recover
park t next w =
    if t.init_fails
    then ends (failed (infrastructure "IMAP IDLE init failed")) 0 w
    else elim t.wait [
      | woken ↦ recover t (next w) w
      | broken ↦ ends (failed (infrastructure "IMAP IDLE wait failed")) 0 w
      | interrupted ↦ recover t (ends (done tt) 0 w) w
    ]

-- what follows a synchronization
unfoldable pub synced :
    Turn → (FolderConfig → World → IdleEnd) → FolderConfig → ℕ → IoResult (ℕ × ℕ) × World → IdleEnd
unfolding park
synced t next cur failures (failed e, w) = ends (failed e) failures w
synced t next cur failures (unfinished, w) = ends unfinished failures w
synced t next cur failures (done (high, uidvalidity), w) =
    park t (next (record cur { last_uid = high; uidvalidity = some uidvalidity }))
      (set_idle_state SyncState.idle w)

module _ (account_id : ℕ) where
  -- the inner loop, on one connection
  unfoldable pub idle_turns : List Turn → FolderConfig → ℕ → World → IdleEnd
  unfolding synced sync_folder
  idle_turns [] cur failures w = ends unfinished failures w
  idle_turns (t ∷ turns) cur failures w =
      let next : FolderConfig → World → IdleEnd = λ c w'. idle_turns turns c 0 w' in
      if t.cancelled
      then ends (done tt) failures w
      else synced t next cur failures (sync_folder t.server account_id cur w)

  -- one connection
  unfoldable pub connection : Attempt → FolderConfig → ℕ → World → IdleEnd
  unfolding idle_turns
  connection a folder failures w = elim a.connected [
    | some e ↦ ends (failed e) failures w
    | none ↦ idle_turns a.turns folder failures w
  ]

  -- what a failed connection leaves
  unfoldable pub count_failure : Error → ℕ → World → World
  count_failure e n w = record w {
    status = record w.status {
      state = if leb failure_error_threshold n then SyncState.error else w.status.state;
      last_error = some e;
    };
  }

  -- the match on the outcome of a connection; `next` is the loop after the wait
  unfoldable pub settle_idle : Bool → (ℕ → World → IdleEnd) → IdleEnd → IdleEnd
  unfolding count_failure
  settle_idle stopped next x = elim x.result [
    | done _ ↦ x
    | unfinished ↦ x
    | failed e ↦
        let n = saturating_add x.failures 1 in
        let w = count_failure e n x.world in if stopped then ends (done tt) n w else next n w
  ]

  -- `idle_task`, from a value of the failure counter
  unfoldable pub idle_task : List Attempt → FolderConfig → ℕ → World → IdleEnd
  unfolding connection settle_idle
  idle_task [] folder failures w = ends unfinished failures w
  idle_task (a ∷ attempts) folder failures w =
      let next : ℕ → World → IdleEnd = λ n w'. idle_task attempts folder n w' in
      if a.cancelled
      then ends (done tt) failures w
      else settle_idle a.stopped next
          (connection a folder failures (set_idle_state SyncState.connecting w))

-- an attempt that does not connect
abbrev pub unconnected : Error → Attempt
unconnected e = record { cancelled = false; connected = some e; turns = []; stopped = false }

-- the world after `n` failures in a row, the last of them `e`
abbrev pub given_up : ℕ → Error → World → World
given_up n e w = record w {
  status = record w.status {
    state = if leb failure_error_threshold n then SyncState.error else SyncState.connecting;
    last_error = some e;
  };
}

one_more : (k : ℕ) → k + 1 ≤ u32_max → saturating_add k 1 ≡ k + 1
one_more k h = omega (arith, h)

module _ (account_id : ℕ) (folder : FolderConfig) (rest : List Attempt) where
  failed_once :
      (e : Error) (k : ℕ) (w : World)
      → k + 1 ≤ u32_max
      → idle_task account_id (unconnected e ∷ rest) folder k w
        ≡ idle_task account_id rest folder (k + 1) (given_up (k + 1) e w)
  unfolding idle_task connection settle_idle count_failure
  failed_once e k w h = ap (λ n. idle_task account_id rest folder n (given_up n e w)) (one_more k h)

module _ (account_id : ℕ) (folder : FolderConfig) (rest : List Attempt) where
  failed_often :
      (es : List Error) (e : Error) (k : ℕ) (w : World)
      → k + (length es + 1) ≤ u32_max
      → idle_task account_id (map unconnected (es ++ e ∷ []) ++ rest) folder k w
        ≡ idle_task account_id rest folder
            (k + (length es + 1))
            (given_up (k + (length es + 1)) e w)
  failed_often [] e k w h = failed_once account_id folder rest e k w h
  failed_often (x ∷ es) e k w h =
      let n : (k + 1) + (length es + 1) ≡ k + (suc (length es) + 1) = omega arith in
      failed_once account_id folder (map unconnected (es ++ e ∷ []) ++ rest) x k w
        (omega (arith, h))
      ∙ failed_often es e (k + 1) (given_up (k + 1) x w) (omega (arith, h))
      ∙ ap (λ m. idle_task account_id rest folder m (given_up m e w)) n

  -- However often connecting fails in a row, fewer than 2 ^ 32 times, the task goes on with its next
  -- attempt; it has called no service, counts each failure, reports the last one's error, and reports
  -- the state `Error` from the fifth failure on, and `Connecting` before.
  pub idle_task_retries :
      (es : List Error) (e : Error) (w : World)
      → length es + 1 ≤ u32_max
      → idle_task account_id (map unconnected (es ++ e ∷ []) ++ rest) folder 0 w
        ≡ idle_task account_id rest folder (length es + 1) (given_up (length es + 1) e w)
  idle_task_retries es e w h =
      let n : 0 + (length es + 1) ≡ length es + 1 = omega arith in
      failed_often es e 0 w (omega (arith, h))
      ∙ ap (λ m. idle_task account_id rest folder m (given_up m e w)) n
