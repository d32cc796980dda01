-- ===== src/Search/Query/Tests.antt =====
-- Runs of the tokenizer and the parser, and the theorems at concrete inputs.
use mail_keep.Base.{
  text_eq, is_empty, eq_ignore_ascii_case, Text, codes, if◌then◌else◌, ◌==◌, Bool, ◌≡◌, refl,
  Option, none, some, List, [], ◌∷◌, true, false, inl, arith,
}
use mail_keep.Search.Query.{
  is_whitespace, scan, scan_char, finish_scan, parse_tokens, parse_token, parse_content, parse_term,
  parse_field, field_term, split_colon, Clause, bare, text, date, from, before, tokenize, parse,
}
use mail_keep.Search.Query.Tokens.{Spelling, plain, quoted, spell_all}
use mail_keep.Search.Query.Print.{IsValue, print_query}
use mail_keep.Search.Query.RoundTrip.{no_quote, no_quote_lem, parse-print_query}

abbrev two_tokens : List Spelling
two_tokens = plain (codes "ab") ∷ quoted (codes "c d") ∷ []

-- Dates that are numbers below 2, written as one digit.
abbrev day : Text → Option Bool
day [] = none
day (c ∷ s) = if c == b'0' then some false else if c == b'1' then some true else none

abbrev print_day : Bool → Text
print_day false = codes "0"
print_day true = codes "1"

day_back : (d : Bool) → day (print_day d) ≡ some d
day_back false = refl
day_back true = refl

day_IsValue : (d : Bool) → IsValue (print_day d)
unfolding no_quote
day_IsValue false = ((λ e. ground (arith, e)), no_quote_lem (codes "0") refl)
day_IsValue true = ((λ e. ground (arith, e)), no_quote_lem (codes "1") refl)

abbrev a_query : List (Clause Bool)
a_query =
    record { negated = true; term = bare (codes "!x") }
    ∷ record { negated = false; term = text from (codes "a: b") }
    ∷ record { negated = false; term = date before true }
    ∷ []

parse-print_query_example : parse day (spell_all (print_query print_day a_query)) ≡ a_query
unfolding no_quote
parse-print_query_example = parse-print_query day print_day day_back day_IsValue a_query (
  (
    ((λ e. omega (arith, e)), ((λ e. omega (arith, e)), tt)),
    no_quote_lem (codes "!x") refl,
    inl refl,
  ),
  (((λ e. ground (arith, e)), no_quote_lem (codes "a: b") refl), (tt, tt)),
)

-- A hint is read from inside quotes, a bad date is not lost.
parse_runs :
    parse day (codes "\"from: x\" before:9")
    ≡ record { negated = false; term = text from (codes " x") }
      ∷ record { negated = false; term = bare (codes "before:9") }
      ∷ []
unfolding parse tokenize scan scan_char finish_scan is_whitespace parse_tokens parse_token
    parse_content parse_term parse_field field_term split_colon text_eq is_empty
    eq_ignore_ascii_case
parse_runs = refl
