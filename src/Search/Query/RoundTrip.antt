-- ===== src/Search/Query/RoundTrip.antt =====
-- `parse` of crates/core/src/search/query.rs on what `print_query` writes.
use mail_keep.Base.{
  text_eq, eq_ignore_ascii_case, Text, codes, is_empty, option_map, ◌≡◌, ◌≢◌, refl, ap, ◌∙◌, Bool,
  true, false, Option, none, some, List, [], ◌∷◌, ◌++◌, map, arith, ◌==◌, ==_ne, inl, inr, All,
  All-append, not, ◌&&◌, &&-right,
}
use mail_keep.Search.Query.{
  field_term, quote, Term, Clause, subject, from, to, before, after, on, bare, text, date,
  attachments, account, folder, split_colon, parse_field, parse_term, parse_content, parse_token,
  parse_tokens, parse,
}
use mail_keep.Search.Query.Tokens.{NoQuote, IsSpelling, token_of, spell_all, tokenize-spell_all}
use mail_keep.Search.Query.Print.{
  field_name, bound_name, print_term, print_clause, print_query, IsValue, IsTerm,
}

split_colon-none : (t : Text) → All (λ x. x ≢ b':') t → split_colon t ≡ none
unfolding split_colon
split_colon-none [] h = refl
split_colon-none (c ∷ t) (ne, h) = rw (==_ne c b':' ne, split_colon-none t h)

is_empty-ne : (t : Text) → t ≢ [] → is_empty t ≡ false
unfolding is_empty
is_empty-ne [] h = absurd (h refl)
is_empty-ne (c ∷ t) h = refl

-- A closed text is checked for quotes by running the test.
unfoldable pub no_quote : Text → Bool
no_quote [] = true
no_quote (c ∷ t) = not (c == quote) && no_quote t

pub no_quote_lem : (t : Text) → no_quote t ≡ true → NoQuote t
unfolding no_quote
no_quote_lem [] h = tt
no_quote_lem (c ∷ t) h = (ground arith, no_quote_lem t (&&-right (not (c == quote)) (no_quote t) h))

prefixed : (t v : Text) → no_quote t ≡ true → NoQuote v → NoQuote (t ++ v)
prefixed t v h k = All-append (λ c. c ≢ quote) t v (no_quote_lem t h) k

ne_lit : b'!' ≢ quote
ne_lit e = omega (arith, e)

-- A bound of a type of dates: `print_date` is written back by `parse_date`.
module _ {D : Type 0} (parse_date : Text → Option D) (print_date : D → Text)
    (date_back : (d : D) → parse_date (print_date d) ≡ some d)
    (date_IsValue : (d : D) → IsValue (print_date d)) where
  parse_term-bare : (r : Text) → split_colon r ≡ none → parse_term parse_date r ≡ bare r
  unfolding parse_term
  parse_term-bare r h = rw (parse_term, h)

  parse_field-value : (f v : Text) → v ≢ [] → parse_field parse_date f v ≡ field_term parse_date f v
  unfolding parse_field is_empty
  parse_field-value f [] h = absurd (h refl)
  parse_field-value f (c ∷ v) h = refl

  hint :
      (n : Bool) (r f v : Text) (t : Term D)
      → split_colon r ≡ some (f, v)
      → v ≢ []
      → field_term parse_date f v ≡ some t
      → is_empty r ≡ false
      → parse_content parse_date n r ≡ some (record { negated = n; term = t })
  unfolding parse_content
  hint n r f v t split ne h filled =
      rw (parse_content, filled) (ap (λ x. some (record { negated = n; term = x })) term)
    where
      term : parse_term parse_date r ≡ t
      term = rw (parse_term, split) (rw (parse_field-value f v ne, h))

  content_back :
      (n : Bool) (t : Term D)
      → IsTerm n t
      → parse_content parse_date n (print_term print_date t)
        ≡ some (record { negated = n; term = t })
  unfolding parse_content parse_term parse_field field_term print_term field_name bound_name
      split_colon text_eq is_empty eq_ignore_ascii_case
  content_back n (bare []) h = absurd h
  content_back n (bare (c ∷ t)) (colon, quotes, e) =
      ap (λ x. some (record { negated = n; term = x }))
        (parse_term-bare (c ∷ t) (split_colon-none (c ∷ t) colon))
  content_back n (text subject v) (ne, h) =
      hint n (codes "subject" ++ (b':' ∷ v)) (codes "subject") v (text subject v) refl ne refl refl
  content_back n (text from v) (ne, h) =
      hint n (codes "from" ++ (b':' ∷ v)) (codes "from") v (text from v) refl ne refl refl
  content_back n (text to v) (ne, h) =
      hint n (codes "to" ++ (b':' ∷ v)) (codes "to") v (text to v) refl ne refl refl
  content_back n (date before d) h =
      hint n (codes "before" ++ (b':' ∷ (print_date d))) (codes "before") (print_date d)
        (date before d) refl (date_IsValue d).0 (ap (option_map (date before)) (date_back d)) refl
  content_back n (date after d) h =
      hint n (codes "after" ++ (b':' ∷ (print_date d))) (codes "after") (print_date d)
        (date after d) refl (date_IsValue d).0 (ap (option_map (date after)) (date_back d)) refl
  content_back n (date on d) h =
      hint n (codes "date" ++ (b':' ∷ (print_date d))) (codes "date") (print_date d) (date on d)
        refl (date_IsValue d).0 (ap (option_map (date on)) (date_back d)) refl
  content_back n (attachments true) h = refl
  content_back n (attachments false) h = refl
  content_back n (account v) (ne, h) =
      hint n (codes "account" ++ (b':' ∷ v)) (codes "account") v (account v) refl ne refl refl
  content_back n (folder v) (ne, h) =
      hint n (codes "folder" ++ (b':' ∷ v)) (codes "folder") v (folder v) refl ne refl refl

  first_plain :
      (t : Term D)
      → IsTerm false t
      → parse_token parse_date (print_term print_date t)
        ≡ parse_content parse_date false (print_term print_date t)
  unfolding parse_token print_term field_name bound_name
  first_plain (bare []) h = absurd h
  first_plain (bare (c ∷ t)) (colon, quotes, inl e) = ground arith
  first_plain (bare (c ∷ t)) (colon, quotes, inr ne) = rw (==_ne c b'!' ne)
  first_plain (text subject v) h = refl
  first_plain (text from v) h = refl
  first_plain (text to v) h = refl
  first_plain (date before d) h = refl
  first_plain (date after d) h = refl
  first_plain (date on d) h = refl
  first_plain (attachments true) h = refl
  first_plain (attachments false) h = refl
  first_plain (account v) h = refl
  first_plain (folder v) h = refl

  clause_back :
      (n : Bool) (t : Term D)
      → IsTerm n t
      → parse_token parse_date (print_clause print_date (record { negated = n; term = t }))
        ≡ some (record { negated = n; term = t })
  unfolding print_clause parse_token
  clause_back true t h = content_back true t h
  clause_back false t h = first_plain t h ∙ content_back false t h

  parse_tokens-cons :
      (t : Text) (tokens : List Text) (c : Clause D)
      → parse_token parse_date t ≡ some c
      → parse_tokens parse_date (t ∷ tokens) ≡ c ∷ parse_tokens parse_date tokens
  unfolding parse_tokens
  parse_tokens-cons t tokens c h = rw (parse_tokens, h)

  tokens_back :
      (l : List (Clause D))
      → All (λ c. IsTerm c.negated c.term) l
      → parse_tokens parse_date (map token_of (print_query print_date l)) ≡ l
  unfolding print_query parse_tokens
  tokens_back [] h = refl
  tokens_back (c ∷ l) (h, k) =
      parse_tokens-cons (print_clause print_date c) (map token_of (print_query print_date l)) c
        (clause_back c.negated c.term h)
      ∙ ap (λ r. c ∷ r) (tokens_back l k)

  term_NoQuote : (n : Bool) (t : Term D) → IsTerm n t → NoQuote (print_term print_date t)
  unfolding print_term field_name bound_name no_quote
  term_NoQuote n (bare []) h = absurd h
  term_NoQuote n (bare (c ∷ t)) (colon, quotes, e) = quotes
  term_NoQuote n (text subject v) (ne, h) = prefixed (codes "subject:") v refl h
  term_NoQuote n (text from v) (ne, h) = prefixed (codes "from:") v refl h
  term_NoQuote n (text to v) (ne, h) = prefixed (codes "to:") v refl h
  term_NoQuote n (date before d) h =
      prefixed (codes "before:") (print_date d) refl (date_IsValue d).1
  term_NoQuote n (date after d) h = prefixed (codes "after:") (print_date d) refl (date_IsValue d).1
  term_NoQuote n (date on d) h = prefixed (codes "date:") (print_date d) refl (date_IsValue d).1
  term_NoQuote n (attachments true) h = no_quote_lem (codes "attachments:some") refl
  term_NoQuote n (attachments false) h = no_quote_lem (codes "attachments:none") refl
  term_NoQuote n (account v) (ne, h) = prefixed (codes "account:") v refl h
  term_NoQuote n (folder v) (ne, h) = prefixed (codes "folder:") v refl h

  clause_NoQuote :
      (n : Bool) (t : Term D)
      → IsTerm n t
      → NoQuote (print_clause print_date (record { negated = n; term = t }))
  unfolding print_clause
  clause_NoQuote true t h = (ne_lit, term_NoQuote true t h)
  clause_NoQuote false t h = term_NoQuote false t h

  query_IsSpelling :
      (l : List (Clause D))
      → All (λ c. IsTerm c.negated c.term) l
      → All IsSpelling (print_query print_date l)
  unfolding print_query
  query_IsSpelling [] h = tt
  query_IsSpelling (c ∷ l) (h, k) = (clause_NoQuote c.negated c.term h, query_IsSpelling l k)

  -- A query whose clauses the language can express, written with each clause in quotes, is read back
  -- as it was, provided that the dates are read back and their texts have some character and no quote.
  pub parse-print_query :
      (l : List (Clause D))
      → All (λ c. IsTerm c.negated c.term) l
      → parse parse_date (spell_all (print_query print_date l)) ≡ l
  unfolding parse
  parse-print_query l h =
      ap (parse_tokens parse_date)
        (tokenize-spell_all (print_query print_date l) (query_IsSpelling l h))
      ∙ tokens_back l h
