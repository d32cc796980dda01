-- ===== src/Jobs/Retry.antt =====
-- What `fail`, `reset_running_to_pending` and `delete_old_jobs` do.
use native.Mathlib.Nat.{pow-suc}
use mail_keep.Base.{
  length, ◌-◌, ◌∙◌, Bool-cases, ap, ℕ, suc, ◌+◌, ◌*◌, ◌^◌, min, String, ◌≡◌, refl, false, some,
  List, [], ◌∷◌, arith, ltb, leb, if◌then◌else◌, inl, inr,
}
use mail_keep.Sql.{ok, quiet}
use mail_keep.Sql.Table.{matching, update_many, delete_many, find_by_id, Unique}
use mail_keep.Jobs.{
  Job, JobTable, pending, running, completed, failed, seconds, job_status_to_str, str_to_job_status,
  JobStatus,
}
use mail_keep.Jobs.Queue.{
  job_id, is_ready, is_open, is_old, is_running, set_reset, set_retry, set_failed, backoff_secs,
  fail, reset_running_to_pending, delete_old_jobs,
}
use mail_keep.Jobs.Held.{update_held_current}

-- The status strings of the database read back as the status that was written.
pub job_status-round_trip : (s : JobStatus) → str_to_job_status (job_status_to_str s) ≡ some s
unfolding job_status_to_str str_to_job_status
job_status-round_trip pending = refl
job_status-round_trip running = refl
job_status-round_trip completed = refl
job_status-round_trip failed = refl

-- The delay doubles with each attempt up to the twentieth, and stays there.
pub backoff_secs-suc :
    (n : ℕ) → backoff_secs (suc n) ≡ (if ltb n 20 then 2 * backoff_secs n else backoff_secs n)
unfolding backoff_secs
backoff_secs-suc n = elim (Bool-cases (ltb n 20)) [
  | inl below ↦
      let e : min n 20 ≡ n = ground arith in
      let e' : min (suc n) 20 ≡ suc n = ground arith in
      rw (below, e, e') (omega (arith, pow-suc 2 n))
  | inr above ↦
      let e : min n 20 ≡ 20 = ground arith in
      let e' : min (suc n) 20 ≡ 20 = ground arith in rw (above, e, e')
]

-- `fail` by the holder of a running job.
pub fail_lem :
    (now : ℕ) (job : Job) (error : String) (t : JobTable)
    → Unique job_id t.rows
    → find_by_id job_id job.id t.rows ≡ some job
    → (fail now job error (quiet t)).0
      ≡ ok (
          if ltb job.attempt job.max_attempts
          then set_retry now (now + seconds (backoff_secs job.attempt)) error job
          else set_failed now error job)
unfolding fail
fail_lem now job error t u found = ground (
  arith,
  update_held_current (set_retry now (now + seconds (backoff_secs job.attempt)) error) job job t
      (λ r. refl) u found refl,
  update_held_current (set_failed now error) job job t (λ r. refl) u found refl,
)

-- A holder of a running job that fails, over a database that does not: with an attempt left, the
-- job is ready again exactly from 30 s * 2 ^ min(attempt, 20) after `now` on; with none left, it is
-- failed, keeps the error, and is never ready again.
pub fail_outcome :
    (now : ℕ) (job : Job) (error : String) (t : JobTable) (later : ℕ)
    → Unique job_id t.rows
    → find_by_id job_id job.id t.rows ≡ some job
    → (j : Job) × ((fail now job error (quiet t)).0 ≡ ok j)
      × (is_ready later j ≡ (
          if ltb job.attempt job.max_attempts
          then leb (now + seconds (30 * 2 ^ min job.attempt 20)) later
          else false))
      × (j.error_message ≡ some error)
      × (j.attempt ≡ job.attempt)
fail_outcome now job error t later u found = elim (Bool-cases (ltb job.attempt job.max_attempts)) [
  | inl more ↦ (
    set_retry now (now + seconds (backoff_secs job.attempt)) error job,
    fail_lem now job error t u found ∙ rw more,
    rw more (unfold backoff_secs in refl),
    refl,
    refl,
  )
  | inr done ↦
      (set_failed now error job, fail_lem now job error t u found ∙ rw done, rw done, refl, refl)
]

none_running :
    (now : ℕ) (rows : List Job)
    → matching is_running (update_many is_running (set_reset now) rows) ≡ 0
none_running now [] = refl
none_running now (r ∷ rows) = ground (arith, none_running now rows)

same_open :
    (now : ℕ) (rows : List Job)
    → matching is_open (update_many is_running (set_reset now) rows) ≡ matching is_open rows
same_open now [] = refl
same_open now (r ∷ rows) = ground (arith, same_open now rows)

-- The crash recovery at startup, over a database that does not fail: it returns how many jobs were
-- running, none is running after it, and no job is lost from those still to do.
pub reset_running_lem :
    (now : ℕ) (t : JobTable)
    → let (n, s) = reset_running_to_pending now (quiet t) in
      (n ≡ ok (matching is_running t.rows))
      × (matching is_running s.tables.rows ≡ 0)
      × (matching is_open s.tables.rows ≡ matching is_open t.rows)
unfolding reset_running_to_pending
reset_running_lem now t = (refl, none_running now t.rows, same_open now t.rows)

delete_keeps_open :
    (cutoff : ℕ) (rows : List Job)
    → matching is_open (delete_many (is_old cutoff) rows) ≡ matching is_open rows
delete_keeps_open cutoff [] = refl
delete_keeps_open cutoff (r ∷ rows) = ground (arith, delete_keeps_open cutoff rows)

delete_leaves_none :
    (cutoff : ℕ) (rows : List Job) → matching (is_old cutoff) (delete_many (is_old cutoff) rows) ≡ 0
delete_leaves_none cutoff [] = refl
delete_leaves_none cutoff (r ∷ rows) = ground (arith, delete_leaves_none cutoff rows)

delete_counts :
    (cutoff : ℕ) (rows : List Job)
    → length (delete_many (is_old cutoff) rows) + matching (is_old cutoff) rows ≡ length rows
delete_counts cutoff [] = omega arith
delete_counts cutoff (r ∷ rows) = ground (arith, delete_counts cutoff rows)

-- The clean-up of old jobs, over a database that does not fail: it returns how many rows went, no
-- finished job from before the cutoff is left, and every pending or running job is kept.
pub delete_old_jobs_lem :
    (cutoff : ℕ) (t : JobTable)
    → let (n, s) = delete_old_jobs cutoff (quiet t) in
      (n ≡ ok (length t.rows - length s.tables.rows))
      × (matching (is_old cutoff) s.tables.rows ≡ 0)
      × (matching is_open s.tables.rows ≡ matching is_open t.rows)
unfolding delete_old_jobs
delete_old_jobs_lem cutoff t = (
  ap ok (omega (arith, delete_counts cutoff t.rows)),
  delete_leaves_none cutoff t.rows,
  delete_keeps_open cutoff t.rows,
)
