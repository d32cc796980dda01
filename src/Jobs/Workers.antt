-- ===== src/Jobs/Workers.antt =====
-- Several workers on one table (crates/core/src/jobs/worker.rs): each runs the statements of
-- `claim_next`, then the handler, then `complete`, `fail` or `fail_terminal`. The statements of
-- different workers interleave freely.
pub mod Rows
pub mod Invariant
pub mod Safety
pub mod Attempts
use mail_keep.Base.{
  ◌<◌, ◌≤◌, String, ℤ, ℕ, suc, ◌+◌, ◌≡◌, ◌≢◌, refl, sym, ◌⊎◌, inl, inr, Bool, true, false, ◌&&◌,
  Option, none, some, List, [], ◌∷◌, ◌++◌, arith, ◌==◌, ==_iff, ==_ne, if◌then◌else◌, Bool-cases,
  Option-cases, &&-left,
}
use mail_keep.Sql.Table.{
  matching, update_many, find_by_id, Unique, find_by_id-update_many, update_many-Unique,
  matching-Unique, matching-absent, find_by_id-update_other,
}
use mail_keep.Jobs.{new_row, Job, JobTable, JobStatus, pending, running, has_status}
use mail_keep.Jobs.Queue.{
  job_id, insert_row, select_candidate, claimable, set_claimed, held_by, update_rows, set_completed,
  set_retry, set_failed,
}
use mail_keep.Jobs.Claim.{claimable_id}
use mail_keep.Jobs.Held.{KeepsId, same_id}

-- Where a worker stands: between rounds, after the SELECT of a claim, or with a claimed job.
pub data Phase : Type 0 where
  idle : Phase
  selected : ℕ → ℕ → Phase
  working : Job → Phase

pub record System : Type 0 where
  pub table : JobTable
  pub phase : ℕ → Phase

abbrev pub set_phase : ℕ → Phase → (ℕ → Phase) → ℕ → Phase
set_phase w p phase v = if v == w then p else phase v

-- the worker that claimed holds the row as it is now; without a row affected it looks again
abbrev pub claimed_phase : Bool → Option Job → Phase
claimed_phase true (some j) = working j
claimed_phase true none = idle
claimed_phase false _ = idle

-- the claiming UPDATE and the reload of a worker that selected this id and version
unfoldable pub claim_step : ℕ → ℕ → ℕ → ℕ → System → System
claim_step w now id version s =
    let (affected, t) = update_rows (claimable id version) (set_claimed now) s.table in
    record {
      table = t;
      phase = set_phase w (claimed_phase (affected == 1) (find_by_id job_id id t.rows)) s.phase;
    }

-- the updates that end a job: `complete`, the branches of `fail`, and `fail_terminal`
pub data Ends (job : Job) : (Job → Job) → Type 0 where
  completes : (now : ℕ) → Ends job (set_completed now)
  retries :
      (now at : ℕ) (error : String)
      → job.attempt < job.max_attempts
      → Ends job (set_retry now at error)
  gives_up :
      (now : ℕ) (error : String) → job.max_attempts ≤ job.attempt → Ends job (set_failed now error)
  fails_terminal : (now : ℕ) (error : String) → Ends job (set_failed now error)

pub data Step (s : System) : System → Type 0 where
  enqueue :
      (now : ℕ) (job_type payload : String) (priority : ℤ) (at : ℕ)
      → Step s (record s {
        table = (insert_row (λ id. new_row id now job_type payload priority at) s.table).1;
      })
  look :
      (w now : ℕ) (c : Job)
      → s.phase w ≡ idle
      → select_candidate now s.table.rows ≡ some c
      → Step s (record s { phase = set_phase w (selected c.id c.version) s.phase })
  claim :
      (w now id version : ℕ)
      → s.phase w ≡ selected id version
      → Step s (claim_step w now id version s)
  end_job :
      (w : ℕ) (job : Job) (f : Job → Job)
      → s.phase w ≡ working job
      → Ends job f
      → Step s (record {
        table = (update_rows (held_by job) f s.table).1;
        phase = set_phase w idle s.phase;
      })

pub data Reach (s : System) : System → Type 0 where
  here : Reach s s
  next : {t u : System} → Reach s t → Step t u → Reach s u

-- A worker with a job has the row of the table as it stands, and it is running.
pub record Holds (rows : List Job) (j : Job) : Type 0 where
  pub found : find_by_id job_id j.id rows ≡ some j
  pub is_running : j.status ≡ running

pub record Inv (s : System) : Type 0 where
  pub unique : Unique job_id s.table.rows
  pub fresh : (i : ℕ) → s.table.next_id ≤ i → find_by_id job_id i s.table.rows ≡ none
  pub held : (w : ℕ) (j : Job) → s.phase w ≡ working j → Holds s.table.rows j
  pub exclusive :
      (v w : ℕ) (j k : Job) → s.phase v ≡ working j → s.phase w ≡ working k → j.id ≡ k.id → v ≡ w

-- The workers start idle, on a table whose keys are unique and below the next key.
abbrev pub start : JobTable → System
start t = record { table = t; phase = λ w. idle }

pub record IsTable (t : JobTable) : Type 0 where
  pub unique : Unique job_id t.rows
  pub fresh : (i : ℕ) → t.next_id ≤ i → find_by_id job_id i t.rows ≡ none
