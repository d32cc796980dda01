-- ===== src/Jobs/Queue.antt =====
-- crates/database/src/adapters/jobs.rs: the queue over the table `jobs`. `now` is the value that
-- `Utc::now()` returns at the start of a method.
use text.Mathlib.Text.{◌==◌ as str_eq}
use mail_keep.Base.{
  ℕ, zero, suc, ◌+◌, ◌*◌, ◌^◌, min, String, Bool, true, false, ◌&&◌, ◌||◌, not, Option, none, some,
  List, [], ◌∷◌, ◌++◌, ltb, leb, ◌==◌, if◌then◌else◌, ℤ, lt_ℤ,
}
use mail_keep.Error.{RepositoryError, infrastructure, repository_error}
use mail_keep.Sql.{Sql, pure, raise, statement, query, ok_or, ◌>>=◌}
use mail_keep.Sql.Table.{matching, update_many, delete_many, first_by, find_by_id}
use mail_keep.Jobs.{
  Job, JobTable, pending, running, completed, failed, has_status, new_row, seconds,
}

abbrev pub job_id : Job → ℕ
job_id j = j.id

-- an insert gives the row the next key
unfoldable pub insert_row : (ℕ → Job) → JobTable → Job × JobTable
insert_row row t =
    let r = row t.next_id in (r, record { rows = t.rows ++ r ∷ []; next_id = t.next_id + 1 })

-- `enqueue_raw`
unfoldable pub enqueue_raw : ℕ → String → String → ℤ → Sql JobTable Job
unfolding insert_row
enqueue_raw now job_type payload priority =
    statement (insert_row (λ id. new_row id now job_type payload priority now))

-- `enqueue_delayed`, for a delay that is not negative
unfoldable pub enqueue_delayed : ℕ → String → String → ℤ → ℕ → Sql JobTable Job
unfolding insert_row
enqueue_delayed now job_type payload priority delay =
    statement (insert_row (λ id. new_row id now job_type payload priority (now + delay)))

-- the filter of the SELECT in `claim_next`
abbrev pub is_ready : ℕ → Job → Bool
is_ready now j = has_status j.status pending && leb j.scheduled_at now

-- its ORDER BY: priority descending, then `scheduled_at`, then `id`
abbrev pub precedes : Job → Job → Bool
precedes a b =
    lt_ℤ b.priority a.priority
    || (not (lt_ℤ a.priority b.priority)
        && (ltb a.scheduled_at b.scheduled_at
            || (not (ltb b.scheduled_at a.scheduled_at) && leb a.id b.id)))

unfoldable pub select_candidate : ℕ → List Job → Option Job
select_candidate now rows = first_by precedes (is_ready now) rows

-- the UPDATE that claims: its filter and its columns
abbrev pub claimable : ℕ → ℕ → Job → Bool
claimable id version j = j.id == id && (j.version == version && has_status j.status pending)

abbrev pub set_claimed : ℕ → Job → Job
set_claimed now j = record j {
  status = running;
  attempt = j.attempt + 1;
  started_at = some now;
  version = j.version + 1;
  updated_at = now;
}

-- an UPDATE on the rows of the table, with the number of rows affected
abbrev pub update_rows : (Job → Bool) → (Job → Job) → JobTable → ℕ × JobTable
update_rows p f t = (matching p t.rows, record t { rows = update_many p f t.rows })

abbrev pub max_claim_attempts : ℕ
max_claim_attempts = 5

-- `find_by_id(id).one(..).ok_or(NotFound)`
unfoldable pub reload : ℕ → Sql JobTable Job
unfolding query ok_or
reload id = do
  found ← query (λ t. find_by_id job_id id t.rows)
  ok_or found (repository_error RepositoryError.not_found)

-- the loop of `claim_next`, on the attempts left
unfoldable pub claim_loop : ℕ → ℕ → Sql JobTable (Option Job)
unfolding pure query statement reload select_candidate
claim_loop zero now = pure none
claim_loop (suc attempts) now = do
  candidate ← query (λ t. select_candidate now t.rows)
  elim candidate [
    | none ↦ pure none
    | some c ↦ do
      affected ← statement (update_rows (claimable c.id c.version) (set_claimed now))
      elim (affected == 1) [
        | true ↦ (do claimed ← reload c.id; pure (some claimed))
        | false ↦ claim_loop attempts now
      ]
  ]

-- `claim_next`
unfoldable pub claim_next : ℕ → Sql JobTable (Option Job)
unfolding claim_loop
claim_next now = claim_loop max_claim_attempts now

-- the filter of every update by the holder of a claim
abbrev pub held_by : Job → Job → Bool
held_by job r = r.id == job.id && r.version == job.version

-- the update of a held job, the test on the rows affected and the reload, as in `complete`, both
-- branches of `fail`, and `fail_terminal`
unfoldable pub update_held : (Job → Job) → Job → Sql JobTable Job
unfolding statement reload raise
update_held f job = do
  affected ← statement (update_rows (held_by job) f)
  if affected == 1 then reload job.id else raise (infrastructure "version conflict or row missing")

abbrev pub set_completed : ℕ → Job → Job
set_completed now r = record r {
  status = completed;
  completed_at = some now;
  version = r.version + 1;
  updated_at = now;
}

abbrev pub set_retry : ℕ → ℕ → String → Job → Job
set_retry now scheduled_at error r = record r {
  status = pending;
  scheduled_at = scheduled_at;
  error_message = some error;
  version = r.version + 1;
  updated_at = now;
}

abbrev pub set_failed : ℕ → String → Job → Job
set_failed now error r = record r {
  status = failed;
  completed_at = some now;
  error_message = some error;
  version = r.version + 1;
  updated_at = now;
}

-- `complete`
unfoldable pub complete : ℕ → Job → Sql JobTable Job
unfolding update_held
complete now job = update_held (set_completed now) job

-- 30 s * 2 ^ attempt, the shift capped at 20; an i64 holds it
unfoldable pub backoff_secs : ℕ → ℕ
backoff_secs attempt = 30 * 2 ^ min attempt 20

-- `fail`
unfoldable pub fail : ℕ → Job → String → Sql JobTable Job
unfolding update_held backoff_secs
fail now job error =
    if ltb job.attempt job.max_attempts
    then update_held (set_retry now (now + seconds (backoff_secs job.attempt)) error) job
    else update_held (set_failed now error) job

-- `fail_terminal`
unfoldable pub fail_terminal : ℕ → Job → String → Sql JobTable Job
unfolding update_held
fail_terminal now job error = update_held (set_failed now error) job

abbrev pub is_running : Job → Bool
is_running r = has_status r.status running

abbrev pub set_reset : ℕ → Job → Job
set_reset now r = record r { status = pending; version = r.version + 1; updated_at = now }

-- `reset_running_to_pending`
unfoldable pub reset_running_to_pending : ℕ → Sql JobTable ℕ
unfolding statement
reset_running_to_pending now = statement (update_rows is_running (set_reset now))

abbrev pub is_open : Job → Bool
is_open r = has_status r.status pending || has_status r.status running

-- `count_pending_by_type`
unfoldable pub count_pending_by_type : String → Sql JobTable ℕ
unfolding query
count_pending_by_type job_type =
    query (λ t. matching (λ r. str_eq r.job_type job_type && is_open r) t.rows)

-- `count_all_pending`
unfoldable pub count_all_pending : Sql JobTable ℕ
unfolding query
count_all_pending = query (λ t. matching is_open t.rows)

-- a completed or failed job whose `completed_at` is set and before the cutoff
abbrev pub is_old : ℕ → Job → Bool
is_old cutoff r =
    (has_status r.status completed || has_status r.status failed)
    && elim r.completed_at [ none ↦ false | some at ↦ ltb at cutoff ]

-- `delete_old_jobs`
unfoldable pub delete_old_jobs : ℕ → Sql JobTable ℕ
unfolding statement
delete_old_jobs cutoff =
    statement (λ t.
      (matching (is_old cutoff) t.rows, record t { rows = delete_many (is_old cutoff) t.rows }))
