-- ===== src/Jobs/Workers/Attempts.antt =====
-- How often a job is tried between two restarts.
use mathlib.Core.Path.{subst}
use mail_keep.Base.{
  sym, Bool, true, [], ◌∷◌, ◌++◌, refl, Bool-cases, ℕ, ◌≤◌, ◌<◌, ◌≡◌, some, List, arith,
  Option-cases, inl, inr,
}
use mail_keep.Sql.Table.{
  find_by_id, update_many, update_row, find_by_id-update_many, find_by_id-append,
}
use mail_keep.Jobs.{Job, JobTable, pending, new_row}
use mail_keep.Jobs.Queue.{job_id, insert_row, claimable, set_claimed, held_by}
use mail_keep.Jobs.Held.{KeepsId, found_self}
use mail_keep.Jobs.Workers.{
  System, claim_step, Ends, completes, retries, gives_up, fails_terminal, Step, enqueue, look,
  claim, end_job, Reach, here, next, Inv, start, IsTable,
}
use mail_keep.Jobs.Workers.Rows.{held_id}
use mail_keep.Jobs.Workers.Invariant.{Ends-KeepsId, Reach-Inv}
use mail_keep.Jobs.Workers.Safety.{start-Inv}

-- A row has an attempt left as long as it waits, and never more attempts than allowed.
pub record HasAttempts (r : Job) : Type 0 where
  pub within : r.attempt ≤ r.max_attempts
  pub waiting : r.status ≡ pending → r.attempt < r.max_attempts

abbrev pub AllAttempts : List Job → Type 0
AllAttempts rows = (i : ℕ) (r : Job) → find_by_id job_id i rows ≡ some r → HasAttempts r

-- An update keeps the bounds if it keeps them on the rows that it changes.
AllAttempts-update_many :
    (p : Job → Bool) (f : Job → Job) (rows : List Job)
    → KeepsId f
    → ((x : Job)
        → find_by_id job_id x.id rows ≡ some x
        → p x ≡ true
        → HasAttempts x
        → HasAttempts (f x))
    → AllAttempts rows
    → AllAttempts (update_many p f rows)
AllAttempts-update_many p f rows keeps good h i r found =
    elim (Option-cases (find_by_id job_id i rows)) [
      | inl e ↦ absurd (ground (arith, find_by_id-update_many job_id p f keeps i rows))
      | inr (x, e) ↦
          let at : find_by_id job_id x.id rows ≡ some x = found_self i x rows e in
          let is_r : update_row p f x ≡ r =
            ground (arith, find_by_id-update_many job_id p f keeps i rows) in
          elim (Bool-cases (p x)) [
            | inl passes ↦
                let changed : f x ≡ r = ground arith in rw (← changed) (good x at passes (h i x e))
            | inr stays ↦ let kept : x ≡ r = ground arith in rw (← kept) (h i x e)
          ]
    ]

AllAttempts-append :
    (rows : List Job) (new : Job)
    → HasAttempts new
    → AllAttempts rows
    → AllAttempts (rows ++ new ∷ [])
AllAttempts-append rows new good h i r found = elim (Option-cases (find_by_id job_id i rows)) [
  | inl e ↦
      let is_r : new ≡ r = ground (arith, find_by_id-append job_id i rows new) in rw (← is_r) good
  | inr (x, e) ↦
      let is_r : x ≡ r = ground (arith, find_by_id-append job_id i rows new) in
      rw (← is_r) (h i x e)
]

-- What the end of a job does to the row of the job itself.
Ends-HasAttempts : (job : Job) (f : Job → Job) → Ends job f → HasAttempts job → HasAttempts (f job)
Ends-HasAttempts job f (completes now) h = record { within = h.within; waiting = λ e. cc }
Ends-HasAttempts job f (retries now at error more) h = record {
  within = h.within;
  waiting = λ e. more;
}
Ends-HasAttempts job f (gives_up now error done) h = record { within = h.within; waiting = λ e. cc }
Ends-HasAttempts job f (fails_terminal now error) h = record {
  within = h.within;
  waiting = λ e. cc;
}

Step-AllAttempts :
    {s t : System} → Step s t → Inv s → AllAttempts s.table.rows → AllAttempts t.table.rows
unfolding insert_row claim_step
Step-AllAttempts {s} (enqueue now job_type payload priority at) inv h =
    AllAttempts-append s.table.rows (new_row s.table.next_id now job_type payload priority at)
      (record { within = omega arith; waiting = λ e. omega arith }) h
Step-AllAttempts {s} (look w now c e found) inv h = h
Step-AllAttempts {s} (claim w now id version e) inv h =
    AllAttempts-update_many (claimable id version) (set_claimed now) s.table.rows (λ r. refl)
      (λ x at passes good. record { within = ground (arith, good.waiting); waiting = λ q. cc }) h
Step-AllAttempts {s} (end_job w job f e ends) inv h =
    AllAttempts-update_many (held_by job) f s.table.rows (Ends-KeepsId job f ends)
      (λ x at passes good.
        let is_job : job ≡ x = ground (
          arith,
          (inv.held w job e).found,
          subst (λ k. find_by_id job_id k s.table.rows ≡ some x) (held_id job x passes) at,
        ) in
        subst (λ y. HasAttempts (f y)) is_job
          (Ends-HasAttempts job f ends (subst HasAttempts (sym is_job) good)))
      h

Reach-AllAttempts :
    {s t : System} → Inv s → Reach s t → AllAttempts s.table.rows → AllAttempts t.table.rows
Reach-AllAttempts inv here h = h
Reach-AllAttempts inv (next r step) h =
    Step-AllAttempts step (Reach-Inv inv r) (Reach-AllAttempts inv r h)

-- However the workers interleave, as long as no restart puts running jobs back, no job of the
-- table is tried more often than its `max_attempts`, if that holds at the start and every waiting
-- job has an attempt left then.
pub workers_attempts :
    (t : JobTable)
    → IsTable t
    → AllAttempts t.rows
    → (s : System) → Reach (start t) s
    → (i : ℕ) (r : Job) → find_by_id job_id i s.table.rows ≡ some r
    → r.attempt ≤ r.max_attempts
workers_attempts t h a s reach i r found =
    (Reach-AllAttempts (start-Inv t h) reach a i r found).within
