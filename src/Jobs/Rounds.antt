-- ===== src/Jobs/Rounds.antt =====
-- What a round of a worker does to the job that it claims.
use mail_keep.Base.{
  ◌&&◌, Bool-cases, ℕ, ◌+◌, ◌≡◌, refl, String, false, Option, none, some, arith, ltb, if◌then◌else◌,
  inl, inr,
}
use mail_keep.Error.{Error, is_transient}
use mail_keep.Sql.{Result, ok, err, Tx, transaction, quiet}
use mail_keep.Sql.Table.{Unique, find_by_id, update_many-Unique}
use mail_keep.Jobs.{Job, JobTable, seconds}
use mail_keep.Jobs.Held.{update_held_current, find_by_id-update_held}
use mail_keep.Jobs.Claim.{claim_next-candidate, found_claimed}
use mail_keep.Sql.Laws.{transaction-quiet}
use mail_keep.Jobs.Queue.{
  held_by, update_rows, claimable, job_id, select_candidate, set_claimed, set_completed, set_failed,
  set_retry, backoff_secs, claim_next, complete, fail, fail_terminal,
}
use mail_keep.Jobs.Worker.{on_ended, after_claim, next, stopped, on_error, ending, round}

on_error-stopped : (e x : Error) → on_error e ≡ stopped x → is_transient x ≡ false
unfolding on_error
on_error-stopped e x h = elim (Bool-cases (is_transient e)) [
  | inl yes' ↦ absurd (ground arith)
  | inr no' ↦ let same : e ≡ x = ground arith in rw (← same) no'
]

on_ended-stopped : (r : Result Job) (x : Error) → on_ended r ≡ stopped x → is_transient x ≡ false
unfolding on_ended
on_ended-stopped (ok j) x h = cc
on_ended-stopped (err e) x h = on_error-stopped e x h

module _ (dispatch : String → String → Result (Unit {0})) (message : Error → String) where
  -- The row of a claimed job after its handler returned.
  abbrev pub finished : ℕ → Job → Result (Unit {0}) → Job
  finished now j (ok _) = set_completed now j
  finished now j (err e) =
      if is_transient e && ltb j.attempt j.max_attempts
      then set_retry now (now + seconds (backoff_secs j.attempt)) (message e) j
      else set_failed now (message e) j

  -- The ending of a held job writes the row that `finished` names, and only by the holder's update.
  ending_lem :
      (now : ℕ) (j : Job) (t : JobTable) (r : Result (Unit {0}))
      → Unique job_id t.rows
      → find_by_id job_id j.id t.rows ≡ some j
      → (u : JobTable) × (ending dispatch message now j r (quiet t)
          ≡ (ok (finished now j r), quiet u))
        × (find_by_id job_id j.id u.rows ≡ some (finished now j r))
  unfolding ending complete fail fail_terminal
  ending_lem now j t (ok _) u found = (
    (update_rows (held_by j) (set_completed now) t).1,
    update_held_current (set_completed now) j j t (λ r. refl) u found refl,
    find_by_id-update_held (set_completed now) j t (λ r. refl) found,
  )
  ending_lem now j t (err e) u found =
      elim (Bool-cases (is_transient e && ltb j.attempt j.max_attempts)) [
        | inl retry ↦
            let f : Job → Job =
              set_retry now (now + seconds (backoff_secs j.attempt)) (message e) in
            (
              (update_rows (held_by j) f t).1,
              ground (arith, update_held_current f j j t (λ r. refl) u found refl),
              ground (arith, find_by_id-update_held f j t (λ r. refl) found),
            )
        | inr done ↦
            let f : Job → Job = set_failed now (message e) in
            (
              (update_rows (held_by j) f t).1,
              ground (arith, update_held_current f j j t (λ r. refl) u found refl),
              ground (arith, find_by_id-update_held f j t (λ r. refl) found),
            )
      ]

  -- A round over a database that does not fail, with the job c first in line: the worker goes on,
  -- and the row of c is completed if its handler succeeded; it waits for another attempt if the
  -- error was transient and an attempt is left; and it is failed, with the error kept, otherwise.
  pub round_lem :
      (now : ℕ) (t : JobTable) (c : Job)
      → Unique job_id t.rows
      → select_candidate now t.rows ≡ some c
      → ((round dispatch message now (quiet t)).0 ≡ next)
        × (find_by_id job_id c.id (round dispatch message now (quiet t)).1.tables.rows
            ≡ some (finished now (set_claimed now c) (dispatch c.job_type c.payload)))
  unfolding round
  round_lem now t c u h =
      let j : Job = set_claimed now c in
      let t' : JobTable = (update_rows (claimable c.id c.version) (set_claimed now) t).1 in
      let claimed : claim_next now (quiet t) ≡ (ok (some j), quiet t') =
        claim_next-candidate now t c u h in
      let u' : Unique job_id t'.rows =
        update_many-Unique job_id (claimable c.id c.version) (set_claimed now) (λ r. refl) t.rows
          u in
      let found : find_by_id job_id c.id t'.rows ≡ some j = found_claimed now t c u h in
      let (after, ends, row) = ending_lem now j t' (dispatch c.job_type c.payload) u' found in
      rw (transaction-quiet (claim_next now) t t' (some j) claimed) (
        rw
          (transaction-quiet (ending dispatch message now j (dispatch c.job_type c.payload)) t'
            after (finished now j (dispatch c.job_type c.payload)) ends)
          (refl, row))

  stopped_by :
      (now : ℕ) (r : Result (Option Job)) (s : Tx JobTable) (e : Error)
      → (after_claim dispatch message now r s).0 ≡ stopped e
      → is_transient e ≡ false
  unfolding after_claim
  stopped_by now (err x) s e h = on_error-stopped x e h
  stopped_by now (ok none) s e h = cc
  stopped_by now (ok (some j)) s e h =
      on_ended-stopped
        (transaction (ending dispatch message now j (dispatch j.job_type j.payload)) s).0 e h

  -- A round ends a worker only with an error that is not transient.
  pub round-stopped :
      (now : ℕ) (s : Tx JobTable) (e : Error)
      → (round dispatch message now s).0 ≡ stopped e
      → is_transient e ≡ false
  unfolding round
  round-stopped now s e h =
      stopped_by now (transaction (claim_next now) s).0 (transaction (claim_next now) s).1 e h
