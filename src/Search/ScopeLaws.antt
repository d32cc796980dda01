-- ===== src/Search/ScopeLaws.antt =====
-- Laws of `resolve_scope` in crates/search/src/service.rs.
use mail_keep.Base.{
  ℕ, ◌≡◌, ◌≢◌, ◌↔◌, refl, sym, ap, Bool, true, false, not, Option, none, some, List, [], ◌∷◌, ◌==◌,
  Text, In, All, Bool-cases, inl, inr, arith,
}
use mail_keep.Sql.Table.{In-select}
use mail_keep.Sql.Order.{select-matches}
use mail_keep.Accounts.{Account}
use mail_keep.Messages.Locations.{is_in}
use mail_keep.Messages.Listing.{is_in_sound, is_in_complete}
use mail_keep.Search.Scope.{
  Hint, find_name, apply_hint, apply_hints, resolve_scope, ids_of, without,
}

module _ (lower : Text → Text) where
  -- An account id obeys a hint: it is the one that the name stands for, or it is not where the hint is
  -- negated.
  abbrev pub Obeys : List Account → ℕ → Hint → Type 0
  Obeys accounts i (true, name) = find_name lower accounts name ≢ some i
  Obeys accounts i (false, name) = find_name lower accounts name ≡ some i

  abbrev ObeysFound : Option ℕ → ℕ → Bool → Type 0
  ObeysFound o i true = o ≢ some i
  ObeysFound o i false = o ≡ some i

  to_found :
      (accounts : List Account) (i : ℕ) (negated : Bool) (name : Text)
      → Obeys accounts i (negated, name)
      → ObeysFound (find_name lower accounts name) i negated
  to_found accounts i true name h = h
  to_found accounts i false name h = h

  of_found :
      (accounts : List Account) (i : ℕ) (negated : Bool) (name : Text)
      → ObeysFound (find_name lower accounts name) i negated
      → Obeys accounts i (negated, name)
  of_found accounts i true name h = h
  of_found accounts i false name h = h

  In-without : (i j : ℕ) (scope : List ℕ) → In i scope → i ≢ j → In i (without lower j scope)
  In-without i j [] h n = h
  In-without i j (k ∷ scope) (inl e) n = elim (Bool-cases (k == j)) [
    | inl q ↦ absurd (n (ground (arith, e, q)))
    | inr q ↦ rw q (inl e)
  ]
  In-without i j (k ∷ scope) (inr h) n = elim (Bool-cases (k == j)) [
    | inl q ↦ rw q (In-without i j scope h n)
    | inr q ↦ rw q (inr (In-without i j scope h n))
  ]

  hint_sound :
      (i : ℕ) (negated : Bool) (o : Option ℕ) (scope : List ℕ)
      → In i (apply_hint lower negated o scope)
      → In i scope × ObeysFound o i negated
  unfolding apply_hint
  hint_sound i true none scope h = (h, λ e. ground (arith, e))
  hint_sound i true (some j) scope h = (
    In-select (λ k. not (k == j)) i scope h,
    λ e. let kept = select-matches (λ k. not (k == j)) i scope h in ground (arith, e, kept),
  )
  hint_sound i false none scope h = absurd h
  hint_sound i false (some j) scope h = elim (Bool-cases (is_in scope j)) [
    | inl q ↦
        let k : In i (j ∷ []) = rw q at h in
        elim k [ inl e ↦ (rw e (is_in_sound scope j q), rw e refl) | inr z ↦ absurd z ]
    | inr q ↦ let k : In i [] = rw q at h in absurd k
  ]

  hint_complete :
      (i : ℕ) (negated : Bool) (o : Option ℕ) (scope : List ℕ)
      → In i scope
      → ObeysFound o i negated
      → In i (apply_hint lower negated o scope)
  unfolding apply_hint
  hint_complete i true none scope h k = h
  hint_complete i true (some j) scope h k = In-without i j scope h λ e. k (ap (λ x. some x) (sym e))
  hint_complete i false none scope h k = ground (arith, k)
  hint_complete i false (some j) scope h k =
      let e : j ≡ i = ground (arith, k) in
      let q : is_in scope j ≡ true = rw e (is_in_complete scope i h) in rw q (inl (sym e))

  hints_sound :
      (accounts : List Account) (hints : List Hint) (i : ℕ) (scope : List ℕ)
      → In i (apply_hints lower accounts hints scope)
      → In i scope × All (Obeys accounts i) hints
  unfolding apply_hints
  hints_sound accounts [] i scope h = (h, _)
  hints_sound accounts ((negated, name) ∷ hints) i scope h =
      let (later, rest) =
        hints_sound accounts hints i
          (apply_hint lower negated (find_name lower accounts name) scope) h in
      let (before, obeys) = hint_sound i negated (find_name lower accounts name) scope later in
      (before, (of_found accounts i negated name obeys, rest))

  hints_complete :
      (accounts : List Account) (hints : List Hint) (i : ℕ) (scope : List ℕ)
      → In i scope
      → All (Obeys accounts i) hints
      → In i (apply_hints lower accounts hints scope)
  unfolding apply_hints
  hints_complete accounts [] i scope h k = h
  hints_complete accounts ((negated, name) ∷ hints) i scope h (k, rest) =
      hints_complete accounts hints i _
        (hint_complete i negated (find_name lower accounts name) scope h
          (to_found accounts i negated name k))
        rest

  -- The scope of a search has exactly the accounts of the user that every hint allows: each `account:`
  -- hint stands for the account, and no negated one does.
  pub resolve_scope_iff :
      (accounts : List Account) (hints : List Hint) (i : ℕ)
      → In i (resolve_scope lower accounts hints)
        ↔ (In i (ids_of accounts) × All (Obeys accounts i) hints)
  unfolding resolve_scope
  resolve_scope_iff accounts hints i = (
    hints_sound accounts hints i (ids_of accounts),
    λ h. hints_complete accounts hints i (ids_of accounts) h.0 h.1,
  )
