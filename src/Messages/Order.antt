-- ===== src/Messages/Order.antt =====
-- The order of the lists of crates/database/src/adapters/message.rs: by date, then by id.
use mail_keep.Base.{
  In-All, ℕ, ◌≡◌, ◌≢◌, ◌⊎◌, ◌↔◌, refl, sym, ap, ◌∙◌, true, false, Bool, Bool-cases, Option, none,
  some, List, [], ◌∷◌, In, inl, inr, All, All-In, arith, ltb, ℤ, ◌||◌, ◌&&◌, not,
}
use mail_keep.Sql.Table.{select, In-select}
use mail_keep.Sql.Order.{insert_by, order_by, In-order_by, In-insert_by}
use mail_keep.Messages.Store.{MessageRow, newer_date, newer}

module _ {A : Type 0} where
  -- each element is related to all later ones
  abbrev pub Pairwise : (A → A → Type 0) → List A → Type 0
  Pairwise R [] = Unit
  Pairwise R (x ∷ xs) = All (R x) xs × Pairwise R xs

  pub Pairwise-select :
      (R : A → A → Type 0) (p : A → Bool) (xs : List A) → Pairwise R xs → Pairwise R (select p xs)
  Pairwise-select R p [] h = tt
  Pairwise-select R p (x ∷ xs) (k, h) = elim (Bool-cases (p x)) [
    | inl e ↦ rw e (
      All-In (R x) (select p xs) (λ y i. In-All (R x) xs k y (In-select p y xs i)),
      Pairwise-select R p xs h,
    )
    | inr e ↦ rw e (Pairwise-select R p xs h)
  ]

  insert_by-In :
      (p : A → A → Bool) (a r : A) (xs : List A) → (a ≡ r) ⊎ In a xs → In a (insert_by p r xs)
  insert_by-In p a r [] (inl e) = inl e
  insert_by-In p a r [] (inr i) = absurd i
  insert_by-In p a r (x ∷ xs) h = elim (Bool-cases (p x r)) [
    | inl e ↦ rw e (later (insert_by-In p a r xs) h)
    | inr e ↦ rw e h
  ]
    where
      later :
          ((a ≡ r) ⊎ In a xs → In a (insert_by p r xs))
          → (a ≡ r) ⊎ In a (x ∷ xs)
          → In a (x ∷ insert_by p r xs)
      later put (inl e) = inr (put (inl e))
      later put (inr (inl e)) = inl e
      later put (inr (inr i)) = inr (put (inr i))

  pub order_by-In : (p : A → A → Bool) (a : A) (xs : List A) → In a xs → In a (order_by p xs)
  order_by-In p a [] i = absurd i
  order_by-In p a (x ∷ xs) (inl e) = insert_by-In p a x (order_by p xs) (inl e)
  order_by-In p a (x ∷ xs) (inr i) = insert_by-In p a x (order_by p xs) (inr (order_by-In p a xs i))

-- no two rows have the same id
abbrev pub UniqueIds : List MessageRow → Type 0
UniqueIds rows = Pairwise (λ a b. a.message.id ≢ b.message.id) rows

-- no later row is newer
abbrev pub IsOrdered : List MessageRow → Type 0
IsOrdered rows = Pairwise (λ a b. newer b a ≡ false) rows

abbrev IsNewer : MessageRow → MessageRow → Type 0
IsNewer a b = newer a b ≡ true

-- `newer` on dates and ids
abbrev after : Option ℤ → ℕ → Option ℤ → ℕ → Bool
after d i e j = newer_date d e || (not (newer_date e d) && ltb j i)

after_total : (d e : Option ℤ) (i j : ℕ) → i ≢ j → after e j d i ≡ false → after d i e j ≡ true
after_total none none i j ne h = ground (arith, ne, h)
after_total none (some b) i j ne h = ground (arith, h)
after_total (some a) none i j ne h = refl
after_total (some a) (some b) i j ne h = ground (arith, ne, h)

after_asym : (d e : Option ℤ) (i j : ℕ) → after d i e j ≡ true → after e j d i ≡ false
after_asym none none i j h = ground (arith, h)
after_asym none (some b) i j h = ground (arith, h)
after_asym (some a) none i j h = refl
after_asym (some a) (some b) i j h = ground (arith, h)

after_trans :
    (c d e : Option ℤ) (i j k : ℕ)
    → after c i d j ≡ true
    → after d j e k ≡ true
    → after c i e k ≡ true
after_trans none none none i j k h l = ground (arith, h, l)
after_trans none none (some e) i j k h l = ground (arith, h, l)
after_trans none (some d) e i j k h l = ground (arith, h, l)
after_trans (some c) none none i j k h l = refl
after_trans (some c) none (some e) i j k h l = ground (arith, h, l)
after_trans (some c) (some d) none i j k h l = refl
after_trans (some c) (some d) (some e) i j k h l = ground (arith, h, l)

-- in order and with different ids, each row is newer than all later ones
Pairwise-IsNewer :
    (rows : List MessageRow) → UniqueIds rows → IsOrdered rows → Pairwise IsNewer rows
Pairwise-IsNewer [] u o = tt
Pairwise-IsNewer (r ∷ rows) (ne, u) (old, o) = (
  All-In (IsNewer r) rows (λ s i.
      after_total r.message.sent_date s.message.sent_date r.message.id s.message.id
        (In-All _ rows ne s i) (In-All _ rows old s i)),
  Pairwise-IsNewer rows u o,
)

insert_by-IsNewer :
    (r : MessageRow) (rows : List MessageRow)
    → All (λ s. r.message.id ≢ s.message.id) rows
    → Pairwise IsNewer rows
    → Pairwise IsNewer (insert_by newer r rows)
insert_by-IsNewer r [] ne h = (tt, tt)
insert_by-IsNewer r (x ∷ rows) (n, ne) (k, h) = elim (Bool-cases (newer x r)) [
  | inl e ↦ rw e (
    All-In (IsNewer x) (insert_by newer r rows) (λ s i. elim (In-insert_by newer s r rows i) [
      | inl q ↦ rw q e
      | inr j ↦ In-All (IsNewer x) rows k s j
    ]),
    insert_by-IsNewer r rows ne h,
  )
  | inr e ↦
      let first : newer r x ≡ true =
        after_total r.message.sent_date x.message.sent_date r.message.id x.message.id n e in
      rw e (
        (
          first,
          All-In (IsNewer r) rows (λ s i.
              after_trans r.message.sent_date x.message.sent_date s.message.sent_date r.message.id
                x.message.id s.message.id first (In-All (IsNewer x) rows k s i)),
        ),
        (k, h),
      )
]

order_by-IsNewer :
    (rows : List MessageRow) → UniqueIds rows → Pairwise IsNewer (order_by newer rows)
order_by-IsNewer [] u = tt
order_by-IsNewer (r ∷ rows) (ne, u) =
    insert_by-IsNewer r (order_by newer rows)
      (All-In _ (order_by newer rows) (λ s i. In-All _ rows ne s (In-order_by newer s rows i)))
      (order_by-IsNewer rows u)

newer_antisym : (r s : MessageRow) → newer r s ≡ true → newer s r ≡ true → r ≡ s
newer_antisym r s h k =
    let no = after_asym r.message.sent_date s.message.sent_date r.message.id s.message.id h in
    ground (arith, k, no)

never : {B : Type 0} (r : MessageRow) → newer r r ≡ true → B
never r h =
    let no = after_asym r.message.sent_date r.message.sent_date r.message.id r.message.id h in
    ground (arith, h, no)

-- Two lists of the same rows, each row newer than all later ones, are the same.
one_order :
    (xs ys : List MessageRow)
    → Pairwise IsNewer xs
    → Pairwise IsNewer ys
    → ((r : MessageRow) → In r xs → In r ys)
    → ((r : MessageRow) → In r ys → In r xs)
    → xs ≡ ys
one_order [] [] h k to from = refl
one_order [] (y ∷ ys) h k to from = absurd (from y (inl refl))
one_order (x ∷ xs) [] h k to from = absurd (to x (inl refl))
one_order (x ∷ xs) (y ∷ ys) (hx, h) (ky, k) to from =
    let same : x ≡ y = first (to x (inl refl)) (from y (inl refl)) in
    let rest =
      one_order xs ys h k (λ r i. to_rest r i same (to r (inr i)))
        (λ r i. from_rest r i same (from r (inr i))) in
    ap (λ z. z ∷ xs) same ∙ ap (λ zs. y ∷ zs) rest
  where
    first : In x (y ∷ ys) → In y (x ∷ xs) → x ≡ y
    first (inl e) j = e
    first (inr i) (inl e) = sym e
    first (inr i) (inr j) = newer_antisym x y (In-All _ xs hx y j) (In-All _ ys ky x i)

    to_rest : (r : MessageRow) → In r xs → x ≡ y → In r (y ∷ ys) → In r ys
    to_rest r i same (inl e) =
        let here : In x xs = rw (e ∙ sym same) at i in never x (In-All (IsNewer x) xs hx x here)
    to_rest r i same (inr j) = j

    from_rest : (r : MessageRow) → In r ys → x ≡ y → In r (x ∷ xs) → In r xs
    from_rest r i same (inl e) =
        let here : In y ys = rw (e ∙ same) at i in never y (In-All (IsNewer y) ys ky y here)
    from_rest r i same (inr j) = j

-- Whatever a database answers with the rows in order is what `order_by` gives.
pub order_by_unique :
    (answer rows : List MessageRow)
    → UniqueIds rows
    → UniqueIds answer
    → IsOrdered answer
    → ((r : MessageRow) → In r answer ↔ In r rows)
    → order_by newer rows ≡ answer
order_by_unique answer rows u ua o same =
    one_order (order_by newer rows) answer (order_by-IsNewer rows u) (Pairwise-IsNewer answer ua o)
      (λ r i. (same r).1 (In-order_by newer r rows i))
      (λ r i. order_by-In newer r rows ((same r).0 i))
