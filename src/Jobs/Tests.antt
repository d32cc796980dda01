-- ===== src/Jobs/Tests.antt =====
-- The theorems on jobs at a small table, and tests.
use mail_keep.Base.{◌*◌, ℕ, ◌≡◌, ◌≢◌, ◌≤◌, refl, String, true, none, some, [], ◌∷◌, arith, inl, In}
use mail_keep.Error.{Error, RepositoryError, repository_error}
use mail_keep.Sql.{Result, ok, err, Tx, quiet, transaction}
use mail_keep.Sql.Table.{find_by_id}
use mail_keep.Jobs.{
  Job, JobTable, new_row, priority_health, priority_user, priority_normal, running,
  str_to_job_status, job_status_to_str,
}
use mail_keep.Jobs.Queue.{
  job_id, claim_next, is_ready, precedes, set_claimed, set_completed, held_by, update_rows,
  update_held, select_candidate, fail, enqueue_raw, backoff_secs,
}
use mail_keep.Jobs.Claim.{claim_next-best, claim_next-finds, claim_next-changes}
use mail_keep.Jobs.Retry.{fail_outcome, backoff_secs-suc, job_status-round_trip}
use mail_keep.Jobs.Workers.{
  selected, set_phase, System, working, Reach, here, next, look, claim, claim_step, start, IsTable,
  completes,
}
use mail_keep.Jobs.Workers.Safety.{workers_exclusive, workers_end}
use mail_keep.Jobs.Workers.Attempts.{AllAttempts, workers_attempts}
use mail_keep.Jobs.Service.{Queue, service_enqueue_raw}
use mail_keep.Jobs.Worker.{Outcome, round}
use mail_keep.Jobs.Rounds.{finished, round_lem}

abbrev low : Job
low = new_row 1 10 "parse_message" "{}" priority_health 10

abbrev high : Job
high = new_row 2 11 "parse_message" "{}" priority_user 11

abbrev later_job : Job
later_job = new_row 3 12 "parse_message" "{}" priority_user 9000

abbrev jobs : JobTable
jobs = record { rows = low ∷ high ∷ later_job ∷ []; next_id = 4 }

jobs-IsTable : IsTable jobs
jobs-IsTable = record { unique = (refl, (refl, (refl, tt))); fresh = λ i le. ground arith }

claim_high : (claim_next 100 (quiet jobs)).0 ≡ ok (some (set_claimed 100 high))
unfolding claim_next
claim_high = refl

claim_next-best_example :
    (c : Job) × In c jobs.rows
    × (is_ready 100 c ≡ true)
    × ((r : Job) → In r jobs.rows → is_ready 100 r ≡ true → precedes c r ≡ true)
    × (set_claimed 100 high ≡ set_claimed 100 c)
claim_next-best_example =
    claim_next-best 100 jobs (set_claimed 100 high) jobs-IsTable.unique claim_high

claim_next-finds_example : (j : Job) × ((claim_next 100 (quiet jobs)).0 ≡ ok (some j))
claim_next-finds_example = claim_next-finds 100 jobs low jobs-IsTable.unique (inl refl) refl

claim_next-changes_example :
    (find_by_id job_id 2 (claim_next 100 (quiet jobs)).1.tables.rows ≡ some (set_claimed 100 high))
    × ((i : ℕ)
        → i ≢ 2
        → find_by_id job_id i (claim_next 100 (quiet jobs)).1.tables.rows
          ≡ find_by_id job_id i jobs.rows)
claim_next-changes_example =
    claim_next-changes 100 jobs (set_claimed 100 high) jobs-IsTable.unique claim_high

-- two workers look and claim in turn
abbrev looked : System
looked = record (start jobs) { phase = set_phase 0 (selected 2 0) (start jobs).phase }

abbrev one_claimed : System
one_claimed = claim_step 0 100 2 0 looked

abbrev looked_again : System
looked_again = record one_claimed { phase = set_phase 1 (selected 1 0) one_claimed.phase }

abbrev both_claimed : System
both_claimed = claim_step 1 100 1 0 looked_again

Reach-both_claimed : Reach (start jobs) both_claimed
unfolding select_candidate claim_step
Reach-both_claimed =
    next
      (next (next (next here (look 0 100 high refl refl)) (claim 0 100 2 0 refl))
        (look 1 100 low refl refl))
      (claim 1 100 1 0 refl)

zero_works : both_claimed.phase 0 ≡ working (set_claimed 100 high)
unfolding claim_step
zero_works = refl

one_works : both_claimed.phase 1 ≡ working (set_claimed 100 low)
unfolding claim_step
one_works = refl

workers_exclusive_example : (set_claimed 100 high).id ≢ (set_claimed 100 low).id
workers_exclusive_example =
    workers_exclusive jobs jobs-IsTable both_claimed Reach-both_claimed 0 1 (set_claimed 100 high)
      (set_claimed 100 low) zero_works one_works (omega arith)

workers_end_example :
    (find_by_id job_id 2 both_claimed.table.rows ≡ some (set_claimed 100 high))
    × ((set_claimed 100 high).status ≡ running)
    × (update_held (set_completed 200) (set_claimed 100 high) (quiet both_claimed.table) ≡ (
      ok (set_completed 200 (set_claimed 100 high)),
      quiet (update_rows (held_by (set_claimed 100 high)) (set_completed 200) both_claimed.table).1,
    ))
workers_end_example =
    workers_end jobs jobs-IsTable both_claimed Reach-both_claimed 0 (set_claimed 100 high)
      (set_completed 200) zero_works (completes 200)

jobs-AllAttempts : AllAttempts jobs.rows
jobs-AllAttempts i r found = record { within = ground arith; waiting = λ e. ground arith }

workers_attempts_example : (set_claimed 100 high).attempt ≤ (set_claimed 100 high).max_attempts
unfolding claim_step
workers_attempts_example =
    workers_attempts jobs jobs-IsTable jobs-AllAttempts both_claimed Reach-both_claimed 2
      (set_claimed 100 high) refl

abbrev held_table : JobTable
held_table = record { rows = set_claimed 100 low ∷ []; next_id = 4 }

fail_outcome_example :
    (j : Job) × ((fail 500 (set_claimed 100 low) "timeout" (quiet held_table)).0 ≡ ok j)
    × (is_ready 60000500 j ≡ true)
    × (j.error_message ≡ some "timeout")
    × (j.attempt ≡ 1)
fail_outcome_example =
    fail_outcome 500 (set_claimed 100 low) "timeout" held_table 60000500 (refl, tt) refl

abbrev finished_table : JobTable
finished_table = record { rows = set_completed 200 (set_claimed 100 high) ∷ low ∷ []; next_id = 4 }

backoff_secs-suc_run : backoff_secs 4 ≡ 2 * backoff_secs 3
backoff_secs-suc_run = backoff_secs-suc 3

job_status-round_trip_run : str_to_job_status (job_status_to_str running) ≡ some running
job_status-round_trip_run = job_status-round_trip running

-- a database whose commit fails
abbrev no_commit : Queue
no_commit = record {
  tx = record {
    tables = jobs;
    faults = none ∷ none ∷ some (RepositoryError.connection "gone") ∷ [];
  };
  woken = 5;
}

enqueue_fails :
    (service_enqueue_raw 1 "parse_message" "{}" priority_normal no_commit).0
    ≡ err (repository_error (RepositoryError.connection "gone"))
unfolding service_enqueue_raw transaction enqueue_raw
enqueue_fails = refl

-- a handler that always meets a busy database
abbrev busy_handler : String → String → Result (Unit {0})
busy_handler job_type payload = err (repository_error (RepositoryError.busy "locked"))

abbrev no_message : Error → String
no_message e = "error"

round_lem_example :
    ((round busy_handler no_message 100 (quiet jobs)).0 ≡ Outcome.next)
    × (find_by_id job_id 2 (round busy_handler no_message 100 (quiet jobs)).1.tables.rows
        ≡ some (
            finished busy_handler no_message 100
              (set_claimed 100 high)
              (busy_handler "parse_message" "{}")))
unfolding select_candidate
round_lem_example = round_lem busy_handler no_message 100 jobs high jobs-IsTable.unique refl

abbrev broken : Tx JobTable
broken = record { tables = jobs; faults = none ∷ some (RepositoryError.database "corrupt") ∷ [] }
