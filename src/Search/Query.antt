-- ===== src/Search/Query.antt =====
-- crates/core/src/search/query.rs: the tokenizer and the parser of search queries. A text is the
-- list of its code points. Dates are chrono's: the type of dates and `parse_date`, which stands for
-- `NaiveDate::parse_from_str(value, "%Y-%m-%d").ok()`, are parameters.
pub mod Tokens
pub mod Print
pub mod RoundTrip
mod Tests
use mail_keep.Base.{
  Text, codes, text_eq, ascii_lower, eq_ignore_ascii_case, is_empty, ℕ, ◌+◌, String, Bool, true,
  false, ◌&&◌, ◌||◌, Option, none, some, List, [], ◌∷◌, ◌++◌, leb, ◌==◌, if◌then◌else◌, option_map,
}

-- `char::is_whitespace`: the property White_Space
unfoldable pub is_whitespace : ℕ → Bool
is_whitespace c =
    (leb 9 c && leb c 13)
    || c == 32
    || c == 133
    || c == 160
    || c == 5760
    || (leb 8192 c && leb c 8202)
    || c == 8232
    || c == 8233
    || c == 8239
    || c == 8287
    || c == 12288

abbrev pub quote : ℕ
quote = b'"'

-- The variables of the loop in `tokenize`.
pub record Scan : Type 0 where
  pub tokens : List Text
  pub current : Text
  pub in_quotes : Bool
  pub started : Bool

abbrev pub init : Scan
init = record { tokens = []; current = []; in_quotes = false; started = false }

-- the body of the loop
unfoldable pub scan_char : Scan → ℕ → Scan
scan_char s ch =
    if s.in_quotes
    then (if ch == quote
        then record s { in_quotes = false }
        else record s { current = s.current ++ ch ∷ [] })
    else if ch == quote
    then record s { in_quotes = true; started = true }
    else if is_whitespace ch
    then (if s.started
        then record s { tokens = s.tokens ++ s.current ∷ []; current = []; started = false }
        else s)
    else record s { current = s.current ++ ch ∷ []; started = true }

unfoldable pub scan : Scan → Text → Scan
scan s [] = s
scan s (ch ∷ input) = scan (scan_char s ch) input

-- what follows the loop
unfoldable pub finish_scan : Scan → List Text
finish_scan s = if s.started then s.tokens ++ s.current ∷ [] else s.tokens

-- `tokenize`
unfoldable pub tokenize : Text → List Text
unfolding scan finish_scan
tokenize input = finish_scan (scan init input)

pub data TextField : Type 0 where
  subject from to : TextField

pub data DateBound : Type 0 where
  before after on : DateBound

-- `Term`, over the type of dates
pub data Term (D : Type 0) : Type 0 where
  bare : Text → Term D
  text : TextField → Text → Term D
  date : DateBound → D → Term D
  attachments : Bool → Term D
  account folder : Text → Term D

-- `Clause`
pub record Clause (D : Type 0) : Type 0 where
  pub negated : Bool
  pub term : Term D

-- `str::split_once(':')`
unfoldable pub split_colon : Text → Option (Text × Text)
split_colon [] = none
split_colon (c ∷ s) =
    let rest = option_map (λ (p : Text × Text). (c ∷ p.0, p.1)) (split_colon s) in
    if c == b':' then some ([], s) else rest

module _ {D : Type 0} (parse_date : Text → Option D) where
  -- the arms of the match in `parse_field`, in their order
  unfoldable pub field_term : Text → Text → Option (Term D)
  unfolding text_eq eq_ignore_ascii_case
  field_term field value =
      if text_eq field (codes "subject")
      then some (text subject value)
      else if text_eq field (codes "from")
      then some (text from value)
      else if text_eq field (codes "to")
      then some (text to value)
      else if text_eq field (codes "account")
      then some (account value)
      else if text_eq field (codes "folder")
      then some (folder value)
      else if text_eq field (codes "before")
      then option_map (date before) (parse_date value)
      else if text_eq field (codes "after")
      then option_map (date after) (parse_date value)
      else if text_eq field (codes "date")
      then option_map (date on) (parse_date value)
      else if text_eq field (codes "attachments") && eq_ignore_ascii_case value (codes "none")
      then some (attachments false)
      else if text_eq field (codes "attachments") && eq_ignore_ascii_case value (codes "some")
      then some (attachments true)
      else if text_eq field (codes "has") && eq_ignore_ascii_case value (codes "attachment")
      then some (attachments true)
      else none

  -- `parse_field`
  unfoldable pub parse_field : Text → Text → Option (Term D)
  unfolding field_term is_empty
  parse_field field value = if is_empty value then none else field_term field value

  -- `parse_term`
  unfoldable pub parse_term : Text → Term D
  unfolding parse_field split_colon
  parse_term rest = elim (split_colon rest) [
    | none ↦ bare rest
    | some (field, value) ↦ elim (parse_field field value) [ none ↦ bare rest | some t ↦ t ]
  ]

  -- the part of `parse_token` after the `!`
  unfoldable pub parse_content : Bool → Text → Option (Clause D)
  unfolding parse_term is_empty
  parse_content negated rest =
      if is_empty rest then none else some (record { negated = negated; term = parse_term rest })

  -- `parse_token`
  unfoldable pub parse_token : Text → Option (Clause D)
  unfolding parse_content
  parse_token [] = parse_content false []
  parse_token (c ∷ token) =
      if c == b'!' then parse_content true token else parse_content false (c ∷ token)

  unfoldable pub parse_tokens : List Text → List (Clause D)
  unfolding parse_token
  parse_tokens [] = []
  parse_tokens (t ∷ tokens) = elim (parse_token t) [
    | none ↦ parse_tokens tokens
    | some c ↦ c ∷ parse_tokens tokens
  ]

  -- `parse`
  unfoldable pub parse : Text → List (Clause D)
  unfolding tokenize parse_tokens
  parse input = parse_tokens (tokenize input)
