-- ===== src/Sql/Order.antt =====
-- `order_by`, `limit` and `offset` of SeaORM's queries, and what a page of an ordered list is.
use mail_keep.Base.{
  ap, ◌∙◌, ◌++◌, ◌⊎◌, ℕ, zero, suc, ◌+◌, ◌≤◌, ◌≡◌, refl, Bool, true, List, [], ◌∷◌, if◌then◌else◌,
  arith, In, inl, inr, Bool-cases, length,
}
use mail_keep.Sql.Table.{select, matching}

module _ {A : Type 0} where
  abbrev pub insert_by : (A → A → Bool) → A → List A → List A
  insert_by precedes r [] = r ∷ []
  insert_by precedes r (x ∷ rows) =
      let rest = insert_by precedes r rows in if precedes x r then x ∷ rest else r ∷ x ∷ rows

  -- `order_by`. Rows that the order does not tell apart come in one fixed order here, where a database
  -- may give them in any.
  abbrev pub order_by : (A → A → Bool) → List A → List A
  order_by precedes [] = []
  order_by precedes (r ∷ rows) = insert_by precedes r (order_by precedes rows)

  abbrev pub limit : ℕ → List A → List A
  limit zero rows = []
  limit (suc n) [] = []
  limit (suc n) (r ∷ rows) = r ∷ limit n rows

  abbrev pub offset : ℕ → List A → List A
  offset zero rows = rows
  offset (suc n) [] = []
  offset (suc n) (r ∷ rows) = offset n rows

  -- `limit(..).offset(..)`
  abbrev pub page : ℕ → ℕ → List A → List A
  page n k rows = limit n (offset k rows)

  pub In-limit : (n : ℕ) (a : A) (rows : List A) → In a (limit n rows) → In a rows
  In-limit zero a rows h = absurd h
  In-limit (suc n) a [] h = h
  In-limit (suc n) a (r ∷ rows) (inl e) = inl e
  In-limit (suc n) a (r ∷ rows) (inr h) = inr (In-limit n a rows h)

  pub In-offset : (n : ℕ) (a : A) (rows : List A) → In a (offset n rows) → In a rows
  In-offset zero a rows h = h
  In-offset (suc n) a [] h = h
  In-offset (suc n) a (r ∷ rows) h = inr (In-offset n a rows h)

  pub length-limit : (n : ℕ) (rows : List A) → length (limit n rows) ≤ n
  length-limit zero rows = omega arith
  length-limit (suc n) [] = omega arith
  length-limit (suc n) (r ∷ rows) = omega (arith, length-limit n rows)

  limit_nil : (n : ℕ) (rows : List A) → rows ≡ [] → limit n rows ≡ []
  limit_nil zero rows h = refl
  limit_nil (suc n) [] h = refl
  limit_nil (suc n) (r ∷ rows) h = ground arith

  offset_nil : (n : ℕ) → offset n [] ≡ []
  offset_nil zero = refl
  offset_nil (suc n) = refl

  nil_append : (m n k l : ℕ) → page m k [] ++ page n l [] ≡ page (m + n) k []
  nil_append m n k l =
      rw
        (
          limit_nil m (offset k []) (offset_nil k),
          limit_nil n (offset l []) (offset_nil l),
          limit_nil (m + n) (offset k []) (offset_nil k),
        )
        refl

  -- Two pages, one after the other, are one page.
  pub page-append :
      (m n k : ℕ) (rows : List A) → page m k rows ++ page n (k + m) rows ≡ page (m + n) k rows
  page-append m n k [] = nil_append m n k (k + m)
  page-append zero n zero (r ∷ rows) = let e : 0 + n ≡ n = omega arith in rw e refl
  page-append (suc m) n zero (r ∷ rows) =
      let e : suc m + n ≡ suc (m + n) = omega arith in
      let d : 0 + suc m ≡ suc (0 + m) = omega arith in
      rw (e, d) (ap (λ l. r ∷ l) (page-append m n zero rows))
  page-append m n (suc k) (r ∷ rows) =
      let e : suc k + m ≡ suc (k + m) = omega arith in rw e (page-append m n k rows)

  pub length-insert_by :
      (p : A → A → Bool) (r : A) (rows : List A) → length (insert_by p r rows) ≡ suc (length rows)
  length-insert_by p r [] = refl
  length-insert_by p r (x ∷ rows) = ground (arith, length-insert_by p r rows)

  pub length-order_by : (p : A → A → Bool) (rows : List A) → length (order_by p rows) ≡ length rows
  length-order_by p [] = refl
  length-order_by p (r ∷ rows) =
      omega (arith, length-insert_by p r (order_by p rows), length-order_by p rows)

  pub In-insert_by :
      (p : A → A → Bool) (a r : A) (rows : List A) → In a (insert_by p r rows) → (a ≡ r) ⊎ In a rows
  In-insert_by p a r [] h = h
  In-insert_by p a r (x ∷ rows) h = elim (Bool-cases (p x r)) [
    | inl e ↦
        let k : In a (x ∷ insert_by p r rows) = rw e at h in
        elim k [
          | inl q ↦ inr (inl q)
          | inr q ↦ elim (In-insert_by p a r rows q) [ inl w ↦ inl w | inr w ↦ inr (inr w) ]
        ]
    | inr e ↦ let k : In a (r ∷ x ∷ rows) = rw e at h in k
  ]

  pub In-order_by : (p : A → A → Bool) (a : A) (rows : List A) → In a (order_by p rows) → In a rows
  In-order_by p a [] h = h
  In-order_by p a (r ∷ rows) h = elim (In-insert_by p a r (order_by p rows) h) [
    | inl e ↦ inl e
    | inr k ↦ inr (In-order_by p a rows k)
  ]

  pub length-select : (p : A → Bool) (rows : List A) → length (select p rows) ≡ matching p rows
  length-select p [] = refl
  length-select p (r ∷ rows) = ground (arith, length-select p rows)

  pub select-matches : (p : A → Bool) (a : A) (rows : List A) → In a (select p rows) → p a ≡ true
  select-matches p a [] h = absurd h
  select-matches p a (r ∷ rows) h = elim (Bool-cases (p r)) [
    | inl e ↦
        let k : In a (r ∷ select p rows) = rw e at h in
        elim k [ inl q ↦ ap p q ∙ e | inr q ↦ select-matches p a rows q ]
    | inr e ↦ select-matches p a rows (rw e at h)
  ]

  pub limit_all : (n : ℕ) (rows : List A) → length rows ≡ n → limit n rows ≡ rows
  limit_all zero [] h = refl
  limit_all zero (r ∷ rows) h = ground (arith, h)
  limit_all (suc n) [] h = refl
  limit_all (suc n) (r ∷ rows) h = ap (λ l. r ∷ l) (limit_all n rows (omega (arith, h)))
