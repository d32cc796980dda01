-- ===== src/Jobs/Workers/Invariant.antt =====
-- The invariant of the workers holds at every step.
use mail_keep.Base.{
  inl, inr, ◌⊎◌, ◌∙◌, sym, ap, ==_iff, ◌≢◌, ℕ, ◌≤◌, ◌≡◌, refl, none, some, List, arith, ◌==◌,
  Bool-cases,
}
use mail_keep.Sql.Table.{
  find_by_id-append, append-Unique, matching, update_many, find_by_id, Unique,
  find_by_id-update_many, update_many-Unique,
}
use mail_keep.Jobs.{new_row, Job, pending}
use mail_keep.Jobs.Queue.{job_id, insert_row, claimable, set_claimed, held_by, update_rows}
use mail_keep.Jobs.Held.{KeepsId, same_id}
use mail_keep.Jobs.Workers.Rows.{
  held_id, Holds-update_other, Holds-claim, Holds-ne_pending, Holds-claimed, Holds-append,
  claim_phase-cases,
}
use mail_keep.Jobs.Workers.{
  Phase, idle, selected, working, System, set_phase, claimed_phase, claim_step, Ends, completes,
  retries, gives_up, fails_terminal, Step, enqueue, look, claim, end_job, Reach, here, next, Holds,
  Inv,
}

pub Ends-KeepsId : (job : Job) (f : Job → Job) → Ends job f → KeepsId f
Ends-KeepsId job f (completes now) r = refl
Ends-KeepsId job f (retries now at error h) r = refl
Ends-KeepsId job f (gives_up now error h) r = refl
Ends-KeepsId job f (fails_terminal now error) r = refl

-- A worker that works after another one's phase changed to no job worked before.
still_working :
    (w x : ℕ) (p : Phase) (phase : ℕ → Phase) (j : Job)
    → ((k : Job) → p ≢ working k)
    → set_phase w p phase x ≡ working j
    → phase x ≡ working j
still_working w x p phase j other h = elim (Bool-cases (x == w)) [
  | inl e ↦ absurd (other j (ground arith))
  | inr e ↦ ground arith
]

look-Inv :
    (s : System) (w i v : ℕ) → Inv s → Inv (record s { phase = set_phase w (selected i v) s.phase })
look-Inv s w i v h = record {
  unique = h.unique;
  fresh = h.fresh;
  held = λ x j q. h.held x j (before x j q);
  exclusive = λ x y j k p q r. h.exclusive x y j k (before x j p) (before y k q) r;
}
  where
    before :
        (x : ℕ) (j : Job) → set_phase w (selected i v) s.phase x ≡ working j → s.phase x ≡ working j
    before x j q = still_working w x (selected i v) s.phase j (λ k. λ e. cc) q

-- A worker that works after another one became idle is not that one.
idle_other : (w x : ℕ) (phase : ℕ → Phase) (j : Job) → set_phase w idle phase x ≡ working j → x ≢ w
idle_other w x phase j h = ground arith

end_job-Inv :
    (s : System) (w : ℕ) (job : Job) (f : Job → Job)
    → Inv s
    → s.phase w ≡ working job
    → KeepsId f
    → Inv (record {
      table = (update_rows (held_by job) f s.table).1;
      phase = set_phase w idle s.phase;
    })
end_job-Inv s w job f h e keeps = record {
  unique = update_many-Unique job_id (held_by job) f keeps s.table.rows h.unique;
  fresh = λ i le.
      rw (find_by_id-update_many job_id (held_by job) f keeps i s.table.rows) (rw (h.fresh i le));
  held = λ x j q.
      Holds-update_other (held_by job) f job.id s.table.rows j keeps (held_id job)
        (λ same. idle_other w x s.phase j q (h.exclusive x w j job (before x j q) e same))
        (h.held x j (before x j q));
  exclusive = λ x y j k p q r. h.exclusive x y j k (before x j p) (before y k q) r;
}
  where
    before : (x : ℕ) (j : Job) → set_phase w idle s.phase x ≡ working j → s.phase x ≡ working j
    before x j q = still_working w x idle s.phase j (λ k. λ e. cc) q

-- Who works once one worker got a job: that worker with it, or another as before.
works_after :
    (w x : ℕ) (got : Job) (phase : ℕ → Phase) (j : Job)
    → set_phase w (working got) phase x ≡ working j
    → ((x ≡ w) × (got ≡ j)) ⊎ (phase x ≡ working j)
works_after w x got phase j h = elim (Bool-cases (x == w)) [
  | inl e ↦ inl ((==_iff x w).0 e, ground arith)
  | inr e ↦ inr (ground arith)
]

claim-Inv : (s : System) (w now id version : ℕ) → Inv s → Inv (claim_step w now id version s)
unfolding claim_step
claim-Inv s w now id version h = elim (claim_phase-cases now id version s.table.rows h.unique) [
  | inl e ↦ record {
    unique = unique';
    fresh = fresh';
    held = λ x j q. Holds-claim now id version s.table.rows j (h.held x j (before e x j q));
    exclusive = λ x y j k p q r. h.exclusive x y j k (before e x j p) (before e y k q) r;
  }
  | inr (r, found, waits, found', e) ↦ record {
    unique = unique';
    fresh = fresh';
    held = λ x j q. elim (works r e x j q) [
      | inl (at, is_j) ↦ rw (← is_j) (Holds-claimed now id r s.table.rows rows' found found')
      | inr q' ↦ Holds-claim now id version s.table.rows j (h.held x j q')
    ];
    exclusive = λ x y j k p q same. elim (works r e x j p) [
      | inl (at, is_j) ↦ elim (works r e y k q) [
        | inl (at', is_k) ↦ at ∙ sym at'
        | inr q' ↦ absurd (free r found waits k (h.held y k q') (sym same ∙ ap job_id (sym is_j)))
      ]
      | inr p' ↦ elim (works r e y k q) [
        | inl (at', is_k) ↦
            absurd (free r found waits j (h.held x j p') (same ∙ ap job_id (sym is_k)))
        | inr q' ↦ h.exclusive x y j k p' q' same
      ]
    ];
  }
]
  where
    rows' : List Job
    rows' = update_many (claimable id version) (set_claimed now) s.table.rows

    after : Phase
    after =
        claimed_phase (matching (claimable id version) s.table.rows == 1)
          (find_by_id job_id id rows')

    unique' : Unique job_id rows'
    unique' =
        update_many-Unique job_id (claimable id version) (set_claimed now) (λ r. refl) s.table.rows
          h.unique

    fresh' : (i : ℕ) → s.table.next_id ≤ i → find_by_id job_id i rows' ≡ none
    fresh' i le =
        rw
          (find_by_id-update_many job_id (claimable id version) (set_claimed now) (λ r. refl) i
            s.table.rows)
          (rw (h.fresh i le))

    before :
        after ≡ idle
        → (x : ℕ) (j : Job) → set_phase w after s.phase x ≡ working j
        → s.phase x ≡ working j
    before e x j q = still_working w x after s.phase j (λ k. λ d. ground arith) q

    works :
        (r : Job)
        → after ≡ working (set_claimed now r)
        → (x : ℕ) (j : Job) → set_phase w after s.phase x ≡ working j
        → ((x ≡ w) × (set_claimed now r ≡ j)) ⊎ (s.phase x ≡ working j)
    works r e x j q = works_after w x (set_claimed now r) s.phase j (rw e at q)

    free :
        (r : Job)
        → find_by_id job_id id s.table.rows ≡ some r
        → r.status ≡ pending
        → (k : Job) → Holds s.table.rows k
        → k.id ≢ r.id
    free r found waits k held same =
        Holds-ne_pending id r s.table.rows k found waits held
          (same ∙ same_id id r s.table.rows found)

enqueue-Inv :
    (s : System) (row : ℕ → Job)
    → ((id : ℕ) → (row id).id ≡ id)
    → Inv s
    → Inv (record s { table = (insert_row row s.table).1 })
unfolding insert_row
enqueue-Inv s row good h = record {
  unique =
      append-Unique job_id s.table.rows (row s.table.next_id) h.unique
        (h.fresh _ (omega (arith, good s.table.next_id)));
  fresh = λ i le.
      rw (find_by_id-append job_id i s.table.rows (row s.table.next_id))
        (rw (h.fresh i (omega arith)) (ground (arith, good s.table.next_id)));
  held = λ x j q. Holds-append s.table.rows (row s.table.next_id) j (h.held x j q);
  exclusive = h.exclusive;
}

pub Step-Inv : {s t : System} → Step s t → Inv s → Inv t
Step-Inv {s} (enqueue now job_type payload priority at) h =
    enqueue-Inv s (λ id. new_row id now job_type payload priority at) (λ id. refl) h
Step-Inv {s} (look w now c e found) h = look-Inv s w c.id c.version h
Step-Inv {s} (claim w now id version e) h = claim-Inv s w now id version h
Step-Inv {s} (end_job w job f e ends) h = end_job-Inv s w job f h e (Ends-KeepsId job f ends)

pub Reach-Inv : {s t : System} → Inv s → Reach s t → Inv t
Reach-Inv h here = h
Reach-Inv h (next r step) = Step-Inv step (Reach-Inv h r)
