-- ===== src/Jobs/Held.antt =====
-- An update by the holder of a claim: what `complete`, `fail` and `fail_terminal` share.
use mathlib.Core.Path.{subst}
use mail_keep.Base.{
  sym, ℕ, ◌≡◌, ◌≢◌, some, List, arith, ◌==◌, ==_iff, ==_ne, if◌then◌else◌, &&-left,
}
use mail_keep.Error.{infrastructure}
use mail_keep.Sql.{ok, err, quiet}
use mail_keep.Sql.Table.{
  matching, find_by_id, Unique, find_by_id-update_many, matching-Unique, find_first-matches,
}
use mail_keep.Jobs.{Job, JobTable}
use mail_keep.Jobs.Queue.{job_id, held_by, update_rows, update_held}

abbrev pub KeepsId : (Job → Job) → Type 0
KeepsId f = (r : Job) → (f r).id ≡ r.id

-- The row that `find_by_id` returns has the key that was asked for.
pub same_id : (i : ℕ) (r : Job) (rows : List Job) → find_by_id job_id i rows ≡ some r → r.id ≡ i
same_id i r rows found = (==_iff r.id i).0 (find_first-matches (λ x. job_id x == i) rows r found)

-- A row that is found is found under its own key.
pub found_self :
    (i : ℕ) (r : Job) (rows : List Job)
    → find_by_id job_id i rows ≡ some r
    → find_by_id job_id r.id rows ≡ some r
found_self i r rows found =
    subst (λ k. find_by_id job_id k rows ≡ some r) (sym (same_id i r rows found)) found

-- How many rows the update of a held job changes.
matching_held :
    (job r : Job) (t : JobTable)
    → Unique job_id t.rows
    → find_by_id job_id job.id t.rows ≡ some r
    → matching (held_by job) t.rows ≡ (if held_by job r then 1 else 0)
matching_held job r t u found =
    matching-Unique job_id (held_by job) job.id
      (λ x h. (==_iff x.id job.id).0 (&&-left (x.id == job.id) (x.version == job.version) h)) t.rows
      u r found

-- The version is current: the row is changed, and the caller gets it as it is now.
pub update_held_current :
    (f : Job → Job) (job r : Job) (t : JobTable)
    → KeepsId f
    → Unique job_id t.rows
    → find_by_id job_id job.id t.rows ≡ some r
    → r.version ≡ job.version
    → update_held f job (quiet t) ≡ (ok (f r), quiet (update_rows (held_by job) f t).1)
unfolding update_held
update_held_current f job r t keeps u found same = ground (
  arith,
  matching_held job r t u found,
  same_id job.id r t.rows found,
  find_by_id-update_many job_id (held_by job) f keeps job.id t.rows,
)

pub update_held_stale :
    (f : Job → Job) (job r : Job) (t : JobTable)
    → Unique job_id t.rows
    → find_by_id job_id job.id t.rows ≡ some r
    → r.version ≢ job.version
    → (update_held f job (quiet t)).0 ≡ err (infrastructure "version conflict or row missing")
unfolding update_held
update_held_stale f job r t u found differs =
    ground (arith, matching_held job r t u found, ==_ne r.version job.version differs)

-- The holder's row after its update.
pub find_by_id-update_held :
    (f : Job → Job) (job : Job) (t : JobTable)
    → KeepsId f
    → find_by_id job_id job.id t.rows ≡ some job
    → find_by_id job_id job.id (update_rows (held_by job) f t).1.rows ≡ some (f job)
find_by_id-update_held f job t keeps found =
    rw (find_by_id-update_many job_id (held_by job) f keeps job.id t.rows) (rw found (ground arith))
