-- ===== src/Search/Query/Print.antt =====
-- How to write a clause so that `parse` reads it back.
use mail_keep.Base.{
  Text, codes, ◌⊎◌, ◌≡◌, ◌≢◌, Bool, true, false, List, [], ◌∷◌, ◌++◌, if◌then◌else◌, All,
}
use mail_keep.Search.Query.{
  Term, Clause, TextField, DateBound, subject, from, to, before, after, on, bare, text, date,
  attachments, account, folder,
}
use mail_keep.Search.Query.Tokens.{NoQuote, Spelling, quoted}

unfoldable pub field_name : TextField → Text
field_name subject = codes "subject"
field_name from = codes "from"
field_name to = codes "to"

unfoldable pub bound_name : DateBound → Text
bound_name before = codes "before"
bound_name after = codes "after"
bound_name on = codes "date"

module _ {D : Type 0} (print_date : D → Text) where
  unfoldable pub print_term : Term D → Text
  unfolding field_name bound_name
  print_term (bare t) = t
  print_term (text f v) = field_name f ++ (b':' ∷ v)
  print_term (date b d) = bound_name b ++ (b':' ∷ print_date d)
  print_term (attachments false) = codes "attachments:none"
  print_term (attachments true) = codes "attachments:some"
  print_term (account v) = codes "account" ++ (b':' ∷ v)
  print_term (folder v) = codes "folder" ++ (b':' ∷ v)

  unfoldable pub print_clause : Clause D → Text
  unfolding print_term
  print_clause c = if c.negated then b'!' ∷ print_term c.term else print_term c.term

  -- every clause in quotes
  unfoldable pub print_query : List (Clause D) → List Spelling
  unfolding print_clause
  print_query [] = []
  print_query (c ∷ l) = quoted (print_clause c) ∷ print_query l

-- A text that no quote and no emptiness spoils as the value of a field.
abbrev pub IsValue : Text → Type 0
IsValue v = (v ≢ []) × NoQuote v

-- A clause that the language can express: its values are not empty and hold no quote, and a bare
-- term has no colon and, unless it is negated, does not begin with `!`.
abbrev pub IsTerm : {D : Type 0} → Bool → Term D → Type 0
IsTerm negated (bare []) = ⊥
IsTerm negated (bare (c ∷ t)) =
    All (λ x. x ≢ b':') (c ∷ t) × NoQuote (c ∷ t) × ((negated ≡ true) ⊎ (c ≢ b'!'))
IsTerm negated (text f v) = IsValue v
IsTerm negated (date b d) = Unit
IsTerm negated (attachments b) = Unit
IsTerm negated (account v) = IsValue v
IsTerm negated (folder v) = IsValue v
