-- ===== src/Search/Scope.antt =====
-- crates/search/src/service.rs: which accounts and folders a search is about. The set of account ids
-- is a list in the accounts' order. `lower` is `str::to_lowercase`, whose tables are Unicode's.
use mail_keep.Base.{
  ℕ, Bool, true, false, ◌&&◌, ◌||◌, not, Option, none, some, List, [], ◌∷◌, map, ◌==◌,
  if◌then◌else◌, Text, text_eq, codes,
}
use mail_keep.Sql.Table.{select}
use mail_keep.Accounts.{Account}
use mail_keep.Folders.{Folder}
use mail_keep.Messages.Locations.{is_in}
use mail_keep.Search.Query.{Term, Clause, account, folder}

-- `AccountHint` and `FolderHint`: whether the hint is negated, and its name
abbrev pub Hint : Type 0
Hint = Bool × Text

-- what `split_clauses` returns
pub record Split (D : Type 0) : Type 0 where
  pub accounts : List Hint
  pub folders : List Hint
  pub residual : List (Clause D)

module _ {D : Type 0} where
  -- the body of the loop; the clauses are pushed in order
  unfoldable pub split_clause : Bool → Term D → Split D → Split D
  split_clause negated (account name) s = record s { accounts = (negated, name) ∷ s.accounts }
  split_clause negated (folder name) s = record s { folders = (negated, name) ∷ s.folders }
  split_clause negated term s = record s {
    residual = record { negated = negated; term = term } ∷ s.residual;
  }

  -- `split_clauses`
  unfoldable pub split_clauses : List (Clause D) → Split D
  unfolding split_clause
  split_clauses [] = record { accounts = []; folders = []; residual = [] }
  split_clauses (c ∷ clauses) = split_clause c.negated c.term (split_clauses clauses)

abbrev pub ids_of : List Account → List ℕ
ids_of accounts = map (λ a. a.id) accounts

abbrev or_earlier : Option ℕ → Option ℕ → Option ℕ
or_earlier none earlier = earlier
or_earlier (some i) earlier = some i

module _ (lower : Text → Text) where
  -- `name_map.get`: of two accounts with one name the later is in the map
  unfoldable pub find_name : List Account → Text → Option ℕ
  find_name [] name = none
  find_name (a ∷ accounts) name =
      or_earlier (find_name accounts name)
        (if text_eq (lower a.display_name) (lower name) then some a.id else none)

  abbrev pub without : ℕ → List ℕ → List ℕ
  without i scope = select (λ j. not (j == i)) scope

  -- the arms for one hint, by what its name resolves to
  unfoldable pub apply_hint : Bool → Option ℕ → List ℕ → List ℕ
  apply_hint true none scope = scope
  apply_hint true (some i) scope = without i scope
  apply_hint false none scope = []
  apply_hint false (some i) scope = if is_in scope i then i ∷ [] else []

  -- the loop over the hints
  unfoldable pub apply_hints : List Account → List Hint → List ℕ → List ℕ
  unfolding apply_hint find_name
  apply_hints accounts [] scope = scope
  apply_hints accounts ((negated, name) ∷ hints) scope =
      apply_hints accounts hints (apply_hint negated (find_name accounts name) scope)

  -- `resolve_scope`
  unfoldable pub resolve_scope : List Account → List Hint → List ℕ
  unfolding apply_hints
  resolve_scope accounts hints = apply_hints accounts hints (ids_of accounts)

  -- `str::contains`
  abbrev pub starts_with : Text → Text → Bool
  starts_with [] s = true
  starts_with (c ∷ needle) [] = false
  starts_with (c ∷ needle) (d ∷ s) = c == d && starts_with needle s

  abbrev pub contains : Text → Text → Bool
  contains needle [] = starts_with needle []
  contains needle (c ∷ s) = let rest = contains needle s in starts_with needle (c ∷ s) || rest

  -- the filter on folders
  unfoldable pub is_named : Text → Folder → Bool
  is_named name f =
      contains (lower name) (lower (codes f.path))
      || elim f.display_name [ none ↦ false | some d ↦ contains (lower name) (lower (codes d)) ]

  -- `folder_constraints`
  unfoldable pub folder_constraints : List Folder → List Hint → List (Bool × List ℕ)
  unfolding is_named
  folder_constraints folders hints =
      map (λ h. (h.0, map (λ f. f.id) (select (is_named h.1) folders))) hints
