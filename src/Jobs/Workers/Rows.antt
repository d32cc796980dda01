-- ===== src/Jobs/Workers/Rows.antt =====
-- What the updates of one worker do to the rows that the others hold.
use mathlib.Core.Path.{subst}
use mail_keep.Base.{
  sym, ◌≢◌, [], ◌∷◌, ◌++◌, ℕ, ◌≡◌, refl, ◌⊎◌, inl, inr, Bool, true, some, List, arith, ◌==◌,
  if◌then◌else◌, Bool-cases, Option-cases,
}
use mail_keep.Sql.Table.{
  matching, update_many, find_by_id, Unique, find_by_id-update_many, matching-Unique,
  matching-absent, find_by_id-update_other, find_by_id-append,
}
use mail_keep.Jobs.{Job, pending}
use mail_keep.Jobs.Queue.{job_id, claimable, set_claimed, held_by}
use mail_keep.Jobs.Held.{same_id}
use mail_keep.Jobs.Claim.{claimable_id}
use mail_keep.Jobs.Held.{KeepsId}
use mail_keep.Jobs.Workers.{idle, working, claimed_phase, Holds}

pub held_id : (job r : Job) → held_by job r ≡ true → r.id ≡ job.id
held_id job r h = ground arith

-- An update of another id leaves the held row alone.
pub Holds-update_other :
    (p : Job → Bool) (f : Job → Job) (at : ℕ) (rows : List Job) (j : Job)
    → KeepsId f
    → ((r : Job) → p r ≡ true → r.id ≡ at)
    → j.id ≢ at
    → Holds rows j
    → Holds (update_many p f rows) j
Holds-update_other p f at rows j keeps only ne h = record {
  found = rw (find_by_id-update_other job_id p f keeps at only j.id rows ne) h.found;
  is_running = h.is_running;
}

-- The claiming update passes over every row that a worker holds: such a row is running.
pub Holds-claim :
    (now id version : ℕ) (rows : List Job) (j : Job)
    → Holds rows j
    → Holds (update_many (claimable id version) (set_claimed now) rows) j
Holds-claim now id version rows j h = record {
  found =
      rw
        (find_by_id-update_many job_id (claimable id version) (set_claimed now) (λ r. refl) j.id
          rows)
        (rw h.found (ground (arith, h.is_running)));
  is_running = h.is_running;
}

-- What a worker won that affected one row.
claim_won :
    (now id version : ℕ) (rows : List Job)
    → Unique job_id rows
    → (matching (claimable id version) rows == 1) ≡ true
    → (r : Job) × (find_by_id job_id id rows ≡ some r)
      × (r.status ≡ pending)
      × (find_by_id job_id id (update_many (claimable id version) (set_claimed now) rows)
          ≡ some (set_claimed now r))
claim_won now id version rows u one = elim (Option-cases (find_by_id job_id id rows)) [
  | inl e ↦
      ground
        (arith, matching-absent job_id (claimable id version) id (claimable_id id version) rows e)
  | inr (r, e) ↦
      let count : matching (claimable id version) rows ≡ (if claimable id version r then 1 else 0) =
        matching-Unique job_id (claimable id version) id (claimable_id id version) rows u r e in
      let passes : claimable id version r ≡ true = ground arith in
      (
        r,
        e,
        ground arith,
        rw
            (find_by_id-update_many job_id (claimable id version) (set_claimed now) (λ x. refl) id
              rows)
            (rw e (ground arith)),
      )
]

-- The phase of a worker after its claim.
pub claim_phase-cases :
    (now id version : ℕ) (rows : List Job)
    → Unique job_id rows
    → let rows' = update_many (claimable id version) (set_claimed now) rows in
      let after =
        claimed_phase (matching (claimable id version) rows == 1) (find_by_id job_id id rows') in
      (after ≡ idle)
      ⊎ ((r : Job) × (find_by_id job_id id rows ≡ some r)
          × (r.status ≡ pending)
          × (find_by_id job_id id rows' ≡ some (set_claimed now r))
          × (after ≡ working (set_claimed now r)))
claim_phase-cases now id version rows u =
    elim (Bool-cases (matching (claimable id version) rows == 1)) [
      | inl one ↦
          let (r, e, p, e') = claim_won now id version rows u one in inr (r, e, p, e', rw (one, e'))
      | inr zero ↦ inl (rw zero)
    ]

-- A pending row is not held.
pub Holds-ne_pending :
    (id : ℕ) (r : Job) (rows : List Job) (k : Job)
    → find_by_id job_id id rows ≡ some r
    → r.status ≡ pending
    → Holds rows k
    → k.id ≢ id
Holds-ne_pending id r rows k found waits h same =
    let e : find_by_id job_id id rows ≡ some k = rw (← same) h.found in ground (arith, h.is_running)

-- A worker that won the claim holds the row.
pub Holds-claimed :
    (now id : ℕ) (r : Job) (rows rows' : List Job)
    → find_by_id job_id id rows ≡ some r
    → find_by_id job_id id rows' ≡ some (set_claimed now r)
    → Holds rows' (set_claimed now r)
Holds-claimed now id r rows rows' found found' = record {
  found =
      subst (λ i. find_by_id job_id i rows' ≡ some (set_claimed now r))
        (sym (same_id id r rows found)) found';
  is_running = refl;
}

-- A new row does not hide a held one.
pub Holds-append : (rows : List Job) (r j : Job) → Holds rows j → Holds (rows ++ r ∷ []) j
Holds-append rows r j h = record {
  found = rw (find_by_id-append job_id j.id rows r) (rw h.found);
  is_running = h.is_running;
}
