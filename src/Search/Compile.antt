-- ===== src/Search/Compile.antt =====
-- crates/search/src/service.rs: the compilation of a query for Tantivy, whose query objects are the
-- constructors of `Ask`. The stemmer of the index is a parameter, and so are chrono's dates with the
-- second at which a day starts.
use mail_keep.Base.{
  ℕ, ℤ, Bool, true, false, ◌&&◌, ◌||◌, not, Option, none, some, List, [], ◌∷◌, ◌==◌, if◌then◌else◌,
  Text,
}
use mail_keep.Search.Query.{
  TextField, DateBound, Term, Clause, bare, text, date, attachments, account, folder, subject, from,
  to, before, after, on,
}

-- the fields of the index that a query names by a text
pub data IndexField : Type 0 where
  subject_field body_field from_field to_field : IndexField

-- `Occur`
pub data Occur : Type 0 where
  must should must_not : Occur

mutual
  -- `EmptyQuery`, `TermQuery` on a text, an account and a number, `PhraseQuery`, `RangeQuery` from a
  -- bound that is included to one that is excluded, and `BooleanQuery`
  pub data Ask : Type 0 where
    nothing : Ask
    has_term : IndexField → Text → Ask
    has_phrase : IndexField → List Text → Ask
    in_account : ℕ → Ask
    attachments_are : ℕ → Ask
    sent_between : Option ℤ → Option ℤ → Ask
    boolean : Asks → Ask

  -- the clauses of a `BooleanQuery`
  pub data Asks : Type 0 where
    no_more : Asks
    also : Occur → Ask → Asks → Asks

-- what a document of the index holds of the fields that are read back
pub record Document : Type 0 where
  pub message_id : Option ℕ
  pub account_id : Option ℕ
  pub snippet : Option Text

abbrev pub index_field : TextField → IndexField
index_field subject = subject_field
index_field from = from_field
index_field to = to_field

abbrev field_query : IndexField → List Text → Ask
field_query field [] = nothing
field_query field (one ∷ []) = has_term field one
field_query field (a ∷ b ∷ more) = has_phrase field (a ∷ b ∷ more)

module _ {D : Type 0} (stem_tokens : Text → List Text) (day_start : D → ℤ)
    (succ_opt : D → Option D) where
  -- `text_field_query`
  unfoldable pub text_field_query : IndexField → Text → Ask
  text_field_query field value = field_query field (stem_tokens value)

  -- `bare_query`
  unfoldable pub bare_query : Text → Ask
  unfolding text_field_query
  bare_query value = boolean (
      also should (text_field_query subject_field value)
        (also should (text_field_query body_field value) no_more))

  -- the start of the next day, or of the last day there is
  abbrev next_start : D → Option D → ℤ
  next_start day none = day_start day
  next_start day (some next) = day_start next

  -- `date_range_query`
  unfoldable pub date_range_query : DateBound → D → Ask
  date_range_query on day =
      sent_between (some (day_start day)) (some (next_start day (succ_opt day)))
  date_range_query before day = sent_between none (some (day_start day))
  date_range_query after day = sent_between (some (next_start day (succ_opt day))) none

  abbrev number : Bool → ℕ
  number true = 1
  number false = 0

  -- the match in `clause_query`
  unfoldable pub term_query : Term D → Ask
  unfolding bare_query text_field_query date_range_query
  term_query (bare value) = bare_query value
  term_query (text field value) = text_field_query (index_field field) value
  term_query (date bound day) = date_range_query bound day
  term_query (attachments has) = attachments_are (number has)
  term_query (account name) = nothing
  term_query (folder name) = nothing

  -- the pushes of `clause_query` in `build_query`
  unfoldable pub clause_queries : List (Clause D) → Asks
  unfolding term_query
  clause_queries [] = no_more
  clause_queries (c ∷ residual) =
      also (if c.negated then must_not else must) (term_query c.term) (clause_queries residual)

  -- `scope_terms`
  unfoldable pub scope_terms : List ℕ → Asks
  scope_terms [] = no_more
  scope_terms (i ∷ scope) = also should (in_account i) (scope_terms scope)

  -- `build_query`
  unfoldable pub build_query : List ℕ → List (Clause D) → Ask
  unfolding clause_queries scope_terms
  build_query scope residual =
      boolean (also must (boolean (scope_terms scope)) (clause_queries residual))

abbrev pub is_account : ℕ → Option ℕ → Bool
is_account i none = false
is_account i (some j) = i == j

abbrev pub is_must : Occur → Bool
is_must must = true
is_must should = false
is_must must_not = false

-- What Tantivy documents of its queries: a document matches a `BooleanQuery` that matches every
-- `Must` clause, no `MustNot` clause and, where there is no `Must` clause, some `Should` clause. The
-- other queries are `leaf`.
module _ (leaf : Ask → Document → Bool) where
  unfoldable mutual
    pub is_match : Document → Ask → Bool
    is_match d nothing = false
    is_match d (in_account i) = is_account i d.account_id
    is_match d (boolean asks) = satisfies d asks && (any_must asks || some_should d asks)
    is_match d (has_term f t) = leaf (has_term f t) d
    is_match d (has_phrase f ts) = leaf (has_phrase f ts) d
    is_match d (attachments_are n) = leaf (attachments_are n) d
    is_match d (sent_between a b) = leaf (sent_between a b) d

    pub satisfies : Document → Asks → Bool
    satisfies d no_more = true
    satisfies d (also must q asks) = is_match d q && satisfies d asks
    satisfies d (also must_not q asks) = not (is_match d q) && satisfies d asks
    satisfies d (also should q asks) = satisfies d asks

    pub some_should : Document → Asks → Bool
    some_should d no_more = false
    some_should d (also should q asks) = is_match d q || some_should d asks
    some_should d (also must q asks) = some_should d asks
    some_should d (also must_not q asks) = some_should d asks

    pub any_must : Asks → Bool
    any_must no_more = false
    any_must (also o q asks) = is_must o || any_must asks
