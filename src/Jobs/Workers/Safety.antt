-- ===== src/Jobs/Workers/Safety.antt =====
-- What the invariant of the workers means for a job.
use mail_keep.Base.{refl, ℕ, ◌≡◌, ◌≢◌, some}
use mail_keep.Sql.{ok, quiet}
use mail_keep.Sql.Table.{find_by_id}
use mail_keep.Jobs.{Job, JobTable, running}
use mail_keep.Jobs.Queue.{job_id, held_by, update_rows, update_held}
use mail_keep.Jobs.Held.{update_held_current}
use mail_keep.Jobs.Workers.{working, System, Ends, Reach, Inv, start, IsTable}
use mail_keep.Jobs.Workers.Invariant.{Ends-KeepsId, Reach-Inv}

pub start-Inv : (t : JobTable) → IsTable t → Inv (start t)
start-Inv t h = record {
  unique = h.unique;
  fresh = h.fresh;
  held = λ w j q. cc;
  exclusive = λ v w j k p q same. cc;
}

-- However the statements of the workers interleave, from idle workers on a table with a unique
-- key, two different workers never process the same job at once.
pub workers_exclusive :
    (t : JobTable)
    → IsTable t
    → (s : System) → Reach (start t) s
    → (v w : ℕ) (j k : Job) → s.phase v ≡ working j
    → s.phase w ≡ working k
    → v ≢ w
    → j.id ≢ k.id
workers_exclusive t h s r v w j k p q ne same =
    ne ((Reach-Inv (start-Inv t h) r).exclusive v w j k p q same)

-- A worker that processes a job always ends it: whichever of `complete`, `fail` and `fail_terminal`
-- it runs, with a database that does not fail, the row is the job that it claimed, still running,
-- that one row is changed, and no version conflict is reported.
pub workers_end :
    (t : JobTable)
    → IsTable t
    → (s : System) → Reach (start t) s
    → (w : ℕ) (j : Job) (f : Job → Job) → s.phase w ≡ working j
    → Ends j f
    → (find_by_id job_id j.id s.table.rows ≡ some j)
      × (j.status ≡ running)
      × (update_held f j (quiet s.table) ≡ (ok (f j), quiet (update_rows (held_by j) f s.table).1))
workers_end t h s r w j f q ends =
    let inv = Reach-Inv (start-Inv t h) r in
    let holds = inv.held w j q in
    (
      holds.found,
      holds.is_running,
      update_held_current f j j s.table (Ends-KeepsId j f ends) inv.unique holds.found refl,
    )
