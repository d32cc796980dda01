-- ===== src/Jobs/Claim.antt =====
-- `claim_next`: which job it takes, and what the claim changes.
use mail_keep.Base.{
  ◌≢◌, ap, ℕ, suc, [], ◌∷◌, ◌∙◌, Bool-cases, ◌≡◌, refl, ◌⊎◌, inl, inr, true, false, none, some,
  List, arith, ◌==◌, ==_iff, Option-cases, In,
}
use mail_keep.Sql.{ok, quiet}
use mail_keep.Sql.Table.{
  matching, find_by_id, Unique, find_by_id-update_many, find_by_id-update_other, matching-Unique,
  first_by-best, first_by-none,
}
use mail_keep.Jobs.{Job, JobTable, pending}
use mail_keep.Jobs.Queue.{
  job_id, is_ready, precedes, select_candidate, claimable, set_claimed, update_rows, claim_loop,
  claim_next,
}

precedes_total : (a b : Job) → precedes a b ≡ false → precedes b a ≡ true
precedes_total a b h = ground arith

precedes_transitive :
    (a b c : Job) → precedes a b ≡ true → precedes b c ≡ true → precedes a c ≡ true
precedes_transitive a b c h k = ground arith

-- What the SELECT of `claim_next` returns.
pub select_candidate-best :
    (now : ℕ) (rows : List Job) (c : Job)
    → select_candidate now rows ≡ some c
    → In c rows
      × (is_ready now c ≡ true)
      × ((r : Job) → In r rows → is_ready now r ≡ true → precedes c r ≡ true)
unfolding select_candidate
select_candidate-best now rows c h =
    first_by-best precedes (is_ready now) precedes_total precedes_transitive rows c h

pub select_candidate-none :
    (now : ℕ) (rows : List Job) (r : Job)
    → select_candidate now rows ≡ none
    → In r rows
    → is_ready now r ≡ false
unfolding select_candidate
select_candidate-none now rows r h i =
    first_by-none precedes (is_ready now) precedes_total precedes_transitive rows r h i

-- With a unique key, the row in the table is the one that its key finds.
pub find_by_id-In :
    (rows : List Job) (c : Job)
    → Unique job_id rows
    → In c rows
    → find_by_id job_id c.id rows ≡ some c
find_by_id-In [] c u i = absurd i
find_by_id-In (x ∷ rows) c (fresh, u) (inl e) = rw e (ground (arith))
find_by_id-In (x ∷ rows) c (fresh, u) (inr i) = elim (Bool-cases (x.id == c.id)) [
  | inl e ↦
      let absent : find_by_id job_id c.id rows ≡ none = rw ((==_iff x.id c.id).0 e) at fresh in
      ground (arith, find_by_id-In rows c u i)
  | inr e ↦ ground (arith, find_by_id-In rows c u i)
]

-- The claiming update touches one id only.
pub claimable_id : (id version : ℕ) (r : Job) → claimable id version r ≡ true → r.id ≡ id
claimable_id id version r h = ground arith

matching-claimable :
    (c : Job) (rows : List Job)
    → Unique job_id rows
    → find_by_id job_id c.id rows ≡ some c
    → c.status ≡ pending
    → matching (claimable c.id c.version) rows ≡ 1
matching-claimable c rows u found p =
    matching-Unique job_id (claimable c.id c.version) c.id (claimable_id c.id c.version) rows u c
      found
    ∙ ground arith

pub ready_pending : (now : ℕ) (c : Job) → is_ready now c ≡ true → c.status ≡ pending
ready_pending now c h = ground arith

-- One round of the loop takes the candidate.
claim_loop-some :
    (n now : ℕ) (t : JobTable) (c : Job)
    → Unique job_id t.rows
    → select_candidate now t.rows ≡ some c
    → claim_loop (suc n) now (quiet t) ≡ (
      ok (some (set_claimed now c)),
      quiet (update_rows (claimable c.id c.version) (set_claimed now) t).1,
    )
unfolding claim_loop
claim_loop-some n now t c u h =
    let (member, ready, best) = select_candidate-best now t.rows c h in
    let found : find_by_id job_id c.id t.rows ≡ some c = find_by_id-In t.rows c u member in
    ground (
      arith,
      matching-claimable c t.rows u found (ready_pending now c ready),
      find_by_id-update_many job_id (claimable c.id c.version) (set_claimed now) (λ r. refl) c.id
          t.rows,
    )

claim_loop-none :
    (n now : ℕ) (t : JobTable)
    → select_candidate now t.rows ≡ none
    → claim_loop (suc n) now (quiet t) ≡ (ok none, quiet t)
unfolding claim_loop
claim_loop-none n now t h = ground arith

-- How `claim_next` ends on a table: nothing is ready, or the best ready job is claimed.
pub claim_next-cases :
    (now : ℕ) (t : JobTable)
    → Unique job_id t.rows
    → ((select_candidate now t.rows ≡ none) × (claim_next now (quiet t) ≡ (ok none, quiet t)))
      ⊎ ((c : Job) × (select_candidate now t.rows ≡ some c)
          × (claim_next now (quiet t) ≡ (
            ok (some (set_claimed now c)),
            quiet (update_rows (claimable c.id c.version) (set_claimed now) t).1,
          )))
unfolding claim_next
claim_next-cases now t u = elim (Option-cases (select_candidate now t.rows)) [
  | inl e ↦ inl (e, claim_loop-none 4 now t e)
  | inr (c, e) ↦ inr (c, e, claim_loop-some 4 now t c u e)
]

pub claim_next-candidate :
    (now : ℕ) (t : JobTable) (c : Job)
    → Unique job_id t.rows
    → select_candidate now t.rows ≡ some c
    → claim_next now (quiet t) ≡ (
      ok (some (set_claimed now c)),
      quiet (update_rows (claimable c.id c.version) (set_claimed now) t).1,
    )
unfolding claim_next
claim_next-candidate now t c u h = claim_loop-some 4 now t c u h

-- The claimed row, as the table has it after the claim.
pub found_claimed :
    (now : ℕ) (t : JobTable) (c : Job)
    → Unique job_id t.rows
    → select_candidate now t.rows ≡ some c
    → find_by_id job_id c.id (update_rows (claimable c.id c.version) (set_claimed now) t).1.rows
      ≡ some (set_claimed now c)
found_claimed now t c u h =
    let (member, ready, best) = select_candidate-best now t.rows c h in
    ground (
      arith,
      find_by_id-In t.rows c u member,
      ready_pending now c ready,
      find_by_id-update_many job_id (claimable c.id c.version) (set_claimed now) (λ r. refl) c.id
          t.rows,
    )

-- Over a table with a unique key and a database that does not fail, a job that `claim_next` returns
-- is a ready job of the table that comes before every other ready job (higher priority, then
-- earlier schedule, then smaller id), now running, with one more attempt and the next version.
pub claim_next-best :
    (now : ℕ) (t : JobTable) (j : Job)
    → Unique job_id t.rows
    → (claim_next now (quiet t)).0 ≡ ok (some j)
    → (c : Job) × In c t.rows
      × (is_ready now c ≡ true)
      × ((r : Job) → In r t.rows → is_ready now r ≡ true → precedes c r ≡ true)
      × (j ≡ set_claimed now c)
claim_next-best now t j u h = elim (claim_next-cases now t u) [
  | inl (e, q) ↦ ground arith
  | inr (c, e, q) ↦
      let (member, ready, best) = select_candidate-best now t.rows c e in
      (c, member, ready, best, ground arith)
]

-- Over a table with a unique key and a database that does not fail, `claim_next` returns a job
-- whenever some job of the table is pending and due.
pub claim_next-finds :
    (now : ℕ) (t : JobTable) (r : Job)
    → Unique job_id t.rows
    → In r t.rows
    → is_ready now r ≡ true
    → (j : Job) × ((claim_next now (quiet t)).0 ≡ ok (some j))
claim_next-finds now t r u i ready = elim (claim_next-cases now t u) [
  | inl (e, q) ↦ ground (arith, select_candidate-none now t.rows r e i)
  | inr (c, e, q) ↦ (set_claimed now c, ap (λ x. x.0) q)
]

-- Over a table with a unique key and a database that does not fail, after `claim_next` returned a
-- job, that job is found under its id as it was returned, and every other row is as it was.
pub claim_next-changes :
    (now : ℕ) (t : JobTable) (j : Job)
    → Unique job_id t.rows
    → (claim_next now (quiet t)).0 ≡ ok (some j)
    → (find_by_id job_id j.id (claim_next now (quiet t)).1.tables.rows ≡ some j)
      × ((i : ℕ)
          → i ≢ j.id
          → find_by_id job_id i (claim_next now (quiet t)).1.tables.rows
            ≡ find_by_id job_id i t.rows)
claim_next-changes now t j u h = elim (claim_next-cases now t u) [
  | inl (e, q) ↦ ground arith
  | inr (c, e, q) ↦
      let same : j ≡ set_claimed now c = ground arith in
      let (member, ready, best) = select_candidate-best now t.rows c e in
      let found : find_by_id job_id c.id t.rows ≡ some c = find_by_id-In t.rows c u member in
      rw q (
        rw same (
            ground (
              arith,
              ready_pending now c ready,
              find_by_id-update_many job_id (claimable c.id c.version) (set_claimed now) (λ r. refl)
                  c.id t.rows,
            )),
        λ i ne.
            find_by_id-update_other job_id (claimable c.id c.version) (set_claimed now) (λ r. refl)
              c.id (claimable_id c.id c.version) i t.rows (rw (ap job_id same) at ne),
      )
]
