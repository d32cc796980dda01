-- ===== src/Sql/Table.antt =====
-- The statements that the adapters of crates/database build with SeaORM, over a table as the list
-- of its rows: find, update_many, delete_many, order by ... one. `key` is the primary key.
use mail_keep.Base.{
  ℕ, suc, ◌≡◌, ◌≢◌, refl, ap, ◌⊎◌, inl, inr, Bool, true, false, not, List, [], ◌∷◌, ◌++◌, Option,
  none, some, arith, ◌==◌, ==_iff, if◌then◌else◌, Bool-cases, Option-cases, option_map, In,
}

module _ {A : Type 0} where
  -- rows that match, in table order
  abbrev pub select : (A → Bool) → List A → List A
  select p [] = []
  select p (r ∷ rows) = let rest = select p rows in if p r then r ∷ rest else rest

  -- how many rows match: the `rows_affected` of an update or a delete, and `count`
  abbrev pub matching : (A → Bool) → List A → ℕ
  matching p [] = 0
  matching p (r ∷ rows) = let rest = matching p rows in if p r then suc rest else rest

  abbrev pub update_row : (A → Bool) → (A → A) → A → A
  update_row p f r = if p r then f r else r

  abbrev pub update_many : (A → Bool) → (A → A) → List A → List A
  update_many p f [] = []
  update_many p f (r ∷ rows) = update_row p f r ∷ update_many p f rows

  abbrev pub delete_many : (A → Bool) → List A → List A
  delete_many p rows = select (λ r. not (p r)) rows

  -- keeps the earlier row of two that stand alike
  abbrev pub better : (A → A → Bool) → A → Option A → Option A
  better precedes r none = some r
  better precedes r (some best) = if precedes r best then some r else some best

  -- `find().filter(..).order_by(..).one()`: the first row in the order among those that match
  abbrev pub first_by : (A → A → Bool) → (A → Bool) → List A → Option A
  first_by precedes p [] = none
  first_by precedes p (r ∷ rows) =
      let rest = first_by precedes p rows in if p r then better precedes r rest else rest

  abbrev pub find_first : (A → Bool) → List A → Option A
  find_first p [] = none
  find_first p (r ∷ rows) = let rest = find_first p rows in if p r then some r else rest

  pub In-select : (p : A → Bool) (a : A) (rows : List A) → In a (select p rows) → In a rows
  In-select p a [] h = h
  In-select p a (r ∷ rows) h = elim (Bool-cases (p r)) [
    | inl e ↦
        let k : In a (r ∷ select p rows) = rw e at h in
        elim k [ inl q ↦ inl q | inr q ↦ inr (In-select p a rows q) ]
    | inr e ↦ inr (In-select p a rows (rw e at h))
  ]

  pub find_first-matches :
      (p : A → Bool) (rows : List A) (r : A) → find_first p rows ≡ some r → p r ≡ true
  find_first-matches p [] r h = ground arith
  find_first-matches p (x ∷ rows) r h = ground (arith, find_first-matches p rows r)

module _ {A : Type 0} (key : A → ℕ) where
  -- `find_by_id(i).one()`
  abbrev pub find_by_id : ℕ → List A → Option A
  find_by_id i rows = find_first (λ r. key r == i) rows

  -- the primary key is unique
  abbrev pub Unique : List A → Type 0
  Unique [] = Unit
  Unique (r ∷ rows) = (find_by_id (key r) rows ≡ none) × Unique rows

module _ {A : Type 0} (key : A → ℕ) (p : A → Bool) (f : A → A) where
  -- An update that keeps the key acts on the row that `find_by_id` returns.
  pub find_by_id-update_many :
      ((r : A) → key (f r) ≡ key r)
      → (i : ℕ) (rows : List A)
      → find_by_id key i (update_many p f rows)
        ≡ option_map (update_row p f) (find_by_id key i rows)
  find_by_id-update_many keeps i [] = refl
  find_by_id-update_many keeps i (r ∷ rows) =
      ground (arith, keeps r, find_by_id-update_many keeps i rows)

  key-update_row : ((r : A) → key (f r) ≡ key r) → (r : A) → key (update_row p f r) ≡ key r
  key-update_row keeps r = ground (arith, keeps r)

  pub update_many-Unique :
      ((r : A) → key (f r) ≡ key r)
      → (rows : List A) → Unique key rows
      → Unique key (update_many p f rows)
  update_many-Unique keeps [] u = u
  update_many-Unique keeps (r ∷ rows) (fresh, u) = (
    rw (key-update_row keeps r) (rw (find_by_id-update_many keeps (key r) rows) (rw fresh)),
    update_many-Unique keeps rows u,
  )

  -- An update whose filter fixes the key leaves the rows with other keys alone.
  pub find_by_id-update_other :
      ((r : A) → key (f r) ≡ key r)
      → (at : ℕ) → ((r : A) → p r ≡ true → key r ≡ at)
      → (i : ℕ) (rows : List A) → i ≢ at
      → find_by_id key i (update_many p f rows) ≡ find_by_id key i rows
  find_by_id-update_other keeps at only i rows ne =
      rw (find_by_id-update_many keeps i rows) (elim (Option-cases (find_by_id key i rows)) [
        | inl e ↦ rw e
        | inr (r, e) ↦
            let same : key r ≡ i =
              (==_iff (key r) i).0 (find_first-matches (λ x. key x == i) rows r e) in
            ground (arith, only r)
      ])

module _ {A : Type 0} (key : A → ℕ) where
  -- A row behind the others is found where they have none.
  pub find_by_id-append :
      (i : ℕ) (rows : List A) (r : A)
      → find_by_id key i (rows ++ r ∷ []) ≡ elim (find_by_id key i rows) [
        | none ↦ if key r == i then some r else none
        | some x ↦ some x
      ]
  find_by_id-append i [] r = refl
  find_by_id-append i (x ∷ rows) r = ground (arith, find_by_id-append i rows r)

  pub append-Unique :
      (rows : List A) (r : A)
      → Unique key rows
      → find_by_id key (key r) rows ≡ none
      → Unique key (rows ++ r ∷ [])
  append-Unique [] r u e = (refl, tt)
  append-Unique (x ∷ rows) r (fresh, u) e = (
    rw (find_by_id-append (key x) rows r) (rw fresh (ground arith)),
    append-Unique rows r u (ground arith),
  )

module _ {A : Type 0} (key : A → ℕ) (p : A → Bool) where
  -- An update whose filter fixes the key matches no row when the key is absent.
  pub matching-absent :
      (i : ℕ)
      → ((r : A) → p r ≡ true → key r ≡ i)
      → (rows : List A) → find_by_id key i rows ≡ none
      → matching p rows ≡ 0
  matching-absent i only [] h = refl
  matching-absent i only (r ∷ rows) h = ground (arith, only r, matching-absent i only rows)

  -- It matches one row when the row with the key passes the filter, and none otherwise.
  pub matching-Unique :
      (i : ℕ)
      → ((r : A) → p r ≡ true → key r ≡ i)
      → (rows : List A) → Unique key rows
      → (r : A) → find_by_id key i rows ≡ some r
      → matching p rows ≡ (if p r then 1 else 0)
  matching-Unique i only [] u r h = ground arith
  matching-Unique i only (x ∷ rows) (fresh, u) r h = elim (Bool-cases (key x == i)) [
    | inl e ↦
        let absent : find_by_id key i rows ≡ none = rw ((==_iff (key x) i).0 e) at fresh in
        ground (arith, matching-absent i only rows absent)
    | inr e ↦ ground (arith, only x, matching-Unique i only rows u r)
  ]

-- `first_by` over an order: what it returns matches and comes before every row that matches.
module _ {A : Type 0} (precedes : A → A → Bool) (p : A → Bool)
    (total : (a b : A) → precedes a b ≡ false → precedes b a ≡ true)
    (transitive : (a b c : A)
      → precedes a b ≡ true
      → precedes b c ≡ true
      → precedes a c ≡ true) where
  reflexive : (a : A) → precedes a a ≡ true
  reflexive a = ground (arith, total a a)

  better-first :
      (r : A) (best : Option A) (c : A)
      → better precedes r best ≡ some c
      → (precedes c r ≡ true)
        × ((b : A) → best ≡ some b → precedes c b ≡ true)
        × ((c ≡ r) ⊎ (best ≡ some c))
  better-first r none c h = ground (arith, reflexive r)
  better-first r (some b) c h = ground (arith, reflexive r, reflexive b, total r b)

  pub first_by-none :
      (rows : List A) (r : A) → first_by precedes p rows ≡ none → In r rows → p r ≡ false
  first_by-none [] r h i = absurd i
  first_by-none (x ∷ rows) r h (inl e) = ground (arith, ap p e)
  first_by-none (x ∷ rows) r h (inr i) = ground (arith, first_by-none rows r)

  -- What comes before the best row of the rest comes before every row of the rest.
  before_rest :
      (rows : List A) (c : A)
      → ((b : A) → first_by precedes p rows ≡ some b → precedes c b ≡ true)
      → ((b : A)
          → first_by precedes p rows ≡ some b
          → (r : A) → In r rows
          → p r ≡ true
          → precedes b r ≡ true)
      → (r : A) → In r rows
      → p r ≡ true
      → precedes c r ≡ true
  before_rest rows c first best r i q = elim (Option-cases (first_by precedes p rows)) [
    | inl e ↦ ground (arith, first_by-none rows r e i)
    | inr (b, e) ↦ transitive c b r (first b e) (best b e r i q)
  ]

  pub first_by-best :
      (rows : List A) (c : A)
      → first_by precedes p rows ≡ some c
      → In c rows × (p c ≡ true) × ((r : A) → In r rows → p r ≡ true → precedes c r ≡ true)
  first_by-best [] c h = ground arith
  first_by-best (x ∷ rows) c h = elim (Bool-cases (p x)) [
    | inl e ↦
        let (before_x, before_b, which) = better-first x (first_by precedes p rows) c (rw e at h) in
        let later : (r : A) → In r rows → p r ≡ true → precedes c r ≡ true =
          before_rest rows c before_b (λ b eq. (first_by-best rows b eq).2) in
        (
          elim which [ inl k ↦ inl k | inr k ↦ inr (first_by-best rows c k).0 ],
          elim which [ inl k ↦ rw k e | inr k ↦ (first_by-best rows c k).1 ],
          λ r i q. elim i [ inl k ↦ rw k before_x | inr k ↦ later r k q ],
        )
    | inr e ↦
        let (member, passes, before) = first_by-best rows c (rw e at h) in
        (
          inr member,
          passes,
          λ r i q. elim i [ inl k ↦ ground (arith, ap p k) | inr k ↦ before r k q ],
        )
  ]
