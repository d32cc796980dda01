-- ===== src/Jobs.antt =====
-- crates/core/src/jobs/model.rs, mod.rs (priorities) and crates/database/src/entities/jobs.rs.
-- Times count microseconds since the epoch; `payload` is the JSON text. The counters `attempt`,
-- `max_attempts` and `version` are never negative and are not bounded here: the database refuses
-- an update that would pass its integer type.
pub mod Queue
pub mod Held
pub mod Claim
pub mod Retry
pub mod Workers
pub mod Service
pub mod Worker
pub mod Rounds
mod Tests
use text.Mathlib.Text.{◌==◌ as str_eq}
use mail_keep.Base.{
  ℕ, ◌*◌, String, Bool, true, false, Option, none, some, List, ℤ, pos, if◌then◌else◌,
}

-- `JobStatus`
pub data JobStatus : Type 0 where
  pending running completed failed : JobStatus

-- `Job`, and the row of the table `jobs`
pub record Job : Type 0 where
  pub id : ℕ
  pub job_type : String
  pub payload : String
  pub status : JobStatus
  pub priority : ℤ
  pub attempt : ℕ
  pub max_attempts : ℕ
  pub version : ℕ
  pub scheduled_at : ℕ
  pub started_at : Option ℕ
  pub completed_at : Option ℕ
  pub error_message : Option String
  pub created_at : ℕ
  pub updated_at : ℕ

-- The table, with the next value of the auto-increment key.
pub record JobTable : Type 0 where
  pub rows : List Job
  pub next_id : ℕ

abbrev pub seconds : ℕ → ℕ
seconds n = n * 1000000

abbrev pub priority_health : ℤ
priority_health = pos 5

abbrev pub priority_ingest : ℤ
priority_ingest = pos 10

abbrev pub priority_normal : ℤ
priority_normal = pos 10

abbrev pub priority_user : ℤ
priority_user = pos 20

-- `job_status_to_str`
unfoldable pub job_status_to_str : JobStatus → String
job_status_to_str pending = "Pending"
job_status_to_str running = "Running"
job_status_to_str completed = "Completed"
job_status_to_str failed = "Failed"

-- `str_to_job_status`; `none` is its panic
unfoldable pub str_to_job_status : String → Option JobStatus
str_to_job_status s =
    if str_eq s "Pending"
    then some pending
    else if str_eq s "Running"
    then some running
    else if str_eq s "Completed"
    then some completed
    else if str_eq s "Failed"
    then some failed
    else none

-- A filter on the column `status`: its strings stand for the constructors one to one.
abbrev pub has_status : JobStatus → JobStatus → Bool
has_status pending pending = true
has_status running running = true
has_status completed completed = true
has_status failed failed = true
has_status _ _ = false

-- `ActiveModel::new()` with the fields that an insert sets
abbrev pub new_row : ℕ → ℕ → String → String → ℤ → ℕ → Job
new_row id now job_type payload priority scheduled_at = record {
  id = id;
  job_type = job_type;
  payload = payload;
  status = pending;
  priority = priority;
  attempt = 0;
  max_attempts = 3;
  version = 0;
  scheduled_at = scheduled_at;
  started_at = none;
  completed_at = none;
  error_message = none;
  created_at = now;
  updated_at = now;
}
