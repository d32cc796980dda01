-- ===== src/Jobs/Worker.antt =====
-- crates/core/src/jobs/worker.rs: one round of the loop of `JobWorker`. What the round waits for at
-- its end is its outcome; the sleeps and the shutdown signal are not modelled.
use mail_keep.Base.{ℕ, String, not, Option, none, some, if◌then◌else◌}
use mail_keep.Error.{Error, is_transient}
use mail_keep.Sql.{Result, ok, err, Tx, Sql, transaction}
use mail_keep.Jobs.{Job, JobTable}
use mail_keep.Jobs.Queue.{claim_next, complete, fail, fail_terminal}

-- How a round ends: `no_work` waits for a wake-up or the poll interval, `paused` sleeps for 10 s,
-- `stopped` returns the error from the worker, `next` goes on at once.
pub data Outcome : Type 0 where
  no_work next : Outcome
  paused stopped : Error → Outcome

-- an error of a transaction of the worker
unfoldable pub on_error : Error → Outcome
unfolding is_transient
on_error e = if is_transient e then paused e else stopped e

-- the arms of a match on the transaction that ends a job
unfoldable pub on_ended : Result Job → Outcome
unfolding on_error
on_ended (ok _) = next
on_ended (err e) = on_error e

-- `dispatch` is the service's; `message` is the `Display` of an error.
module _ (dispatch : String → String → Result (Unit {0})) (message : Error → String) where
  -- which update follows the handler's result
  unfoldable pub ending : ℕ → Job → Result (Unit {0}) → Sql JobTable Job
  unfolding is_transient
  ending now job (ok _) = complete now job
  ending now job (err e) =
      if not (is_transient e) then fail_terminal now job (message e) else fail now job (message e)

  unfoldable pub after_claim : ℕ → Result (Option Job) → Tx JobTable → Outcome × Tx JobTable
  unfolding ending on_ended on_error
  after_claim now (err e) s = (on_error e, s)
  after_claim now (ok none) s = (no_work, s)
  after_claim now (ok (some job)) s =
      let (r, s') = transaction (ending now job (dispatch job.job_type job.payload)) s in
      (on_ended r, s')

  -- one round: claim in a transaction, dispatch, end the job in a second transaction
  unfoldable pub round : ℕ → Tx JobTable → Outcome × Tx JobTable
  unfolding after_claim
  round now s = let (claimed, s') = transaction (claim_next now) s in after_claim now claimed s'
