-- ===== src/Jobs/Service.antt =====
-- crates/core/src/jobs/service.rs: enqueueing with its wake-up, and the registry of handlers.
-- `handler.rs` turns a payload that does not deserialize into an error of the handler.
use text.Mathlib.Text.{◌==◌ as str_eq}
use text.Mathlib.TextEquality.{eq_iff}
use mail_keep.Base.{
  ℕ, ◌+◌, ◌≡◌, refl, String, Bool, false, Option, none, some, List, [], ◌∷◌, arith, ℤ,
  if◌then◌else◌,
}
use mail_keep.Error.{Error, infrastructure}
use mail_keep.Sql.{Result, ok, err, Tx, Sql, transaction}
use mail_keep.Sql.Laws.{transaction_atomic}
use mail_keep.Jobs.{Job, JobTable}
use mail_keep.Jobs.Queue.{enqueue_raw, enqueue_delayed}

-- `ErasedJobHandler`: `quiet` and `handle`, on the JSON text of the payload
pub record Handler : Type 0 where
  pub quiet_log : Bool
  pub handle : String → Result (Unit {0})

-- `handlers`, the map from job type to handler
abbrev pub Registry : Type 0
Registry = List (String × Handler)

-- `register_handler`: an insert into the map replaces
unfoldable pub register_handler : String → Handler → Registry → Registry
register_handler job_type handler [] = (job_type, handler) ∷ []
register_handler job_type handler ((k, h) ∷ rest) =
    if str_eq k job_type
    then (job_type, handler) ∷ rest
    else (k, h) ∷ register_handler job_type handler rest

unfoldable pub find_handler : String → Registry → Option Handler
find_handler job_type [] = none
find_handler job_type ((k, h) ∷ rest) =
    if str_eq k job_type then some h else find_handler job_type rest

-- `dispatch`
unfoldable pub dispatch : Registry → String → String → Result (Unit {0})
unfolding find_handler
dispatch handlers job_type payload = elim (find_handler job_type handlers) [
  | none ↦ err (infrastructure "no handler registered for job type")
  | some h ↦ h.handle payload
]

-- `handler_quiet`
unfoldable pub handler_quiet : Registry → String → Bool
unfolding find_handler
handler_quiet handlers job_type = elim (find_handler job_type handlers) [
  | none ↦ false
  | some h ↦ h.quiet_log
]

-- What the service changes: the table, and how often it woke the workers.
pub record Queue : Type 0 where
  pub tx : Tx JobTable
  pub woken : ℕ

-- a transaction that enqueues, then `notify_waiters` once it is committed
unfoldable pub enqueue_and_notify : Sql JobTable Job → Queue → Result ℕ × Queue
enqueue_and_notify enqueue q =
    let (r, tx') = transaction enqueue q.tx in
    elim r [
      | ok job ↦ (ok job.id, record { tx = tx'; woken = q.woken + 1 })
      | err e ↦ (err e, record { tx = tx'; woken = q.woken })
    ]

-- `enqueue_raw` of the service
unfoldable pub service_enqueue_raw : ℕ → String → String → ℤ → Queue → Result ℕ × Queue
unfolding enqueue_and_notify
service_enqueue_raw now job_type payload priority =
    enqueue_and_notify (enqueue_raw now job_type payload priority)

-- `enqueue_raw_delayed` of the service
unfoldable pub service_enqueue_delayed : ℕ → String → String → ℤ → ℕ → Queue → Result ℕ × Queue
unfolding enqueue_and_notify
service_enqueue_delayed now job_type payload priority delay =
    enqueue_and_notify (enqueue_delayed now job_type payload priority delay)

-- The last handler registered for a type is the one found, and other types keep theirs.
pub find_handler-register :
    (k j : String) (h : Handler) (r : Registry)
    → find_handler j (register_handler k h r) ≡ (if str_eq k j then some h else find_handler j r)
unfolding find_handler register_handler
find_handler-register k j h [] = refl
find_handler-register k j h ((i, g) ∷ r) =
    ground (arith, eq_iff k j, eq_iff i k, eq_iff i j, find_handler-register k j h r)

-- The service reports an error exactly when no worker is woken, and then no job is enqueued; this
-- holds whichever call of the database fails.
pub service_enqueue_raw-errors :
    (now : ℕ) (job_type payload : String) (priority : ℤ) (q : Queue) (e : Error)
    → (service_enqueue_raw now job_type payload priority q).0 ≡ err e
    → ((service_enqueue_raw now job_type payload priority q).1.woken ≡ q.woken)
      × ((service_enqueue_raw now job_type payload priority q).1.tx.tables ≡ q.tx.tables)
unfolding service_enqueue_raw
service_enqueue_raw-errors now job_type payload priority q e h =
    ground (arith, transaction_atomic (enqueue_raw now job_type payload priority) q.tx e)
