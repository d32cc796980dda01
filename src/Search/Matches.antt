-- ===== src/Search/Matches.antt =====
-- Laws of `build_query` in crates/search/src/service.rs: what a document that matches says.
use mail_keep.Base.{
  ℕ, ℤ, ◌≡◌, refl, Bool, true, false, ◌&&◌, Option, none, some, List, [], ◌∷◌, In, Text, &&-left,
  &&-right, Bool-cases, inl, inr, arith,
}
use mail_keep.Search.Query.{Clause}
use mail_keep.Search.Compile.{
  Ask, Document, boolean, build_query, scope_terms, clause_queries, is_match, satisfies,
  some_should, any_must, is_account,
}

module _ {D : Type 0} (stem_tokens : Text → List Text) (day_start : D → ℤ) (succ_opt : D → Option D)
    (leaf : Ask → Document → Bool) where
  scope_must :
      (scope : List ℕ) → any_must leaf (scope_terms stem_tokens day_start succ_opt scope) ≡ false
  unfolding any_must scope_terms
  scope_must [] = refl
  scope_must (i ∷ scope) = scope_must scope

  is_account_sound : (i : ℕ) (o : Option ℕ) → is_account i o ≡ true → o ≡ some i
  is_account_sound i none h = ground (arith, h)
  is_account_sound i (some j) h = ground (arith, h)

  scope_should :
      (d : Document) (scope : List ℕ)
      → some_should leaf d (scope_terms stem_tokens day_start succ_opt scope) ≡ true
      → (i : ℕ) × In i scope × (d.account_id ≡ some i)
  unfolding is_match some_should scope_terms
  scope_should d [] h = ground (arith, h)
  scope_should d (i ∷ scope) h = elim (Bool-cases (is_account i d.account_id)) [
    | inl e ↦ (i, inl refl, is_account_sound i d.account_id e)
    | inr e ↦ let (j, k, q) = scope_should d scope (rw e at h) in (j, inr k, q)
  ]

  -- A document that matches the compiled query is of an account of the scope.
  pub build_query-scope :
      (d : Document) (scope : List ℕ) (residual : List (Clause D))
      → is_match leaf d (build_query stem_tokens day_start succ_opt scope residual) ≡ true
      → (i : ℕ) × In i scope × (d.account_id ≡ some i)
  unfolding build_query is_match satisfies any_must
  build_query-scope d scope residual h =
      let terms = scope_terms stem_tokens day_start succ_opt scope in
      let all_met =
        &&-left
          (is_match leaf d (boolean terms)
            && satisfies leaf d (clause_queries stem_tokens day_start succ_opt residual))
          _ h in
      let scoped = &&-left (is_match leaf d (boolean terms)) _ all_met in
      let one_of = &&-right (satisfies leaf d terms) _ scoped in
      scope_should d scope (ground (arith, one_of, scope_must scope))
