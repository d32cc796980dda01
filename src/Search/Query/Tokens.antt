-- ===== src/Search/Query/Tokens.antt =====
-- What `tokenize` does with words and quoted phrases, and with any input.
use mathlib.Core.List.{append_assoc, append-nil}
use mail_keep.Base.{
  Text, ℕ, ◌≡◌, ◌≢◌, refl, ap, ◌∙◌, Bool, true, false, List, [], ◌∷◌, ◌++◌, map, arith, ◌==◌, ==_ne,
  if◌then◌else◌, Bool-cases, inl, inr, All, All-append,
}
use mail_keep.Search.Query.{
  is_whitespace, quote, Scan, init, scan_char, scan, finish_scan, tokenize,
}

abbrev pub NoQuote : Text → Type 0
NoQuote t = All (λ c. c ≢ quote) t

-- A word that stands without quotes: some characters, none of them a quote or white space.
abbrev pub IsWord : Text → Type 0
IsWord t = (t ≢ []) × All (λ c. (c ≢ quote) × (is_whitespace c ≡ false)) t

-- Two ways to write a token.
pub data Spelling : Type 0 where
  plain quoted : Text → Spelling

abbrev pub token_of : Spelling → Text
token_of (plain t) = t
token_of (quoted t) = t

abbrev pub IsSpelling : Spelling → Type 0
IsSpelling (plain t) = IsWord t
IsSpelling (quoted t) = NoQuote t

pub spell : Spelling → Text
spell (plain t) = t
spell (quoted t) = quote ∷ (t ++ quote ∷ [])

-- each token is followed by a space
pub spell_all : List Spelling → Text
unfolding spell
spell_all [] = []
spell_all (s ∷ rest) = spell s ++ (b' ' ∷ spell_all rest)

abbrev between : List Text → Scan
between tokens = record { tokens = tokens; current = []; in_quotes = false; started = false }

scan-append : (s : Scan) (a b : Text) → scan s (a ++ b) ≡ scan (scan s a) b
unfolding scan
scan-append s [] b = refl
scan-append s (c ∷ a) b = scan-append (scan_char s c) a b

-- Inside quotes every character but the quote is taken.
scan_inside :
    (tokens : List Text) (current t : Text) (started : Bool)
    → NoQuote t
    → scan (record { tokens = tokens; current = current; in_quotes = true; started = started }) t
      ≡ record { tokens = tokens; current = current ++ t; in_quotes = true; started = started }
unfolding scan scan_char
scan_inside tokens current [] started h = rw append-nil
scan_inside tokens current (c ∷ t) started (ne, h) =
    rw (==_ne c quote ne)
      (rw (scan_inside tokens (current ++ c ∷ []) t started h) (rw append_assoc))

-- Outside quotes a word is taken.
scan_word :
    (tokens : List Text) (current t : Text) (started : Bool)
    → All (λ c. (c ≢ quote) × (is_whitespace c ≡ false)) t
    → started ≡ true
    → scan (record { tokens = tokens; current = current; in_quotes = false; started = started }) t
      ≡ record { tokens = tokens; current = current ++ t; in_quotes = false; started = true }
unfolding scan scan_char
scan_word tokens current [] started h e = rw (append-nil, e)
scan_word tokens current (c ∷ t) started ((ne, black), h) e =
    rw (==_ne c quote ne, black)
      (rw (scan_word tokens (current ++ c ∷ []) t true h refl) (rw append_assoc))

space_white : is_whitespace b' ' ≡ true
unfolding is_whitespace
space_white = refl

-- The first characters of a token, and its end.
open_word :
    (tokens : List Text) (c : ℕ)
    → c ≢ quote
    → is_whitespace c ≡ false
    → scan_char (between tokens) c
      ≡ record { tokens = tokens; current = c ∷ []; in_quotes = false; started = true }
unfolding scan_char
open_word tokens c ne black = rw (==_ne c quote ne, black)

close_token :
    (tokens : List Text) (t rest : Text)
    → scan
        (record { tokens = tokens; current = t; in_quotes = false; started = true })
        (b' ' ∷ rest)
      ≡ scan (between (tokens ++ t ∷ [])) rest
unfolding scan scan_char is_whitespace
close_token tokens t rest = refl

-- After a token the scan stands between tokens again.
scan_spelling :
    (tokens : List Text) (s : Spelling) (rest : Text)
    → IsSpelling s
    → scan (between tokens) (spell s ++ (b' ' ∷ rest))
      ≡ scan (between (tokens ++ token_of s ∷ [])) rest
unfolding spell scan scan_char
scan_spelling tokens (plain []) rest (ne, h) = absurd (ne refl)
scan_spelling tokens (plain (c ∷ t)) rest (ne, ((nq, black), h)) =
    ap (λ s. scan s (t ++ (b' ' ∷ rest))) (open_word tokens c nq black)
    ∙ scan-append (record { tokens = tokens; current = c ∷ []; in_quotes = false; started = true })
        t (b' ' ∷ rest)
    ∙ ap (λ s. scan s (b' ' ∷ rest)) (scan_word tokens (c ∷ []) t true h refl)
    ∙ close_token tokens (c ∷ t) rest
scan_spelling tokens (quoted t) rest h =
    ap (λ r. scan (record { tokens = tokens; current = []; in_quotes = true; started = true }) r)
      (append_assoc t (quote ∷ []) (b' ' ∷ rest))
    ∙ scan-append (record { tokens = tokens; current = []; in_quotes = true; started = true }) t
        (quote ∷ b' ' ∷ rest)
    ∙ ap (λ s. scan s (quote ∷ b' ' ∷ rest)) (scan_inside tokens [] t true h)
    ∙ close_token tokens t rest

scan-All :
    (tokens : List Text) (l : List Spelling)
    → All IsSpelling l
    → scan (between tokens) (spell_all l) ≡ between (tokens ++ map token_of l)
unfolding spell_all scan
scan-All tokens [] h = rw append-nil
scan-All tokens (s ∷ l) (h, k) =
    scan_spelling tokens s (spell_all l) h
    ∙ scan-All (tokens ++ token_of s ∷ []) l k
    ∙ ap between (append_assoc tokens (token_of s ∷ []) (map token_of l))

-- A list of words and quoted phrases, each followed by a space, is split into exactly those tokens:
-- the quotes are gone, white space inside quotes is kept, and empty phrases are kept.
pub tokenize-spell_all :
    (l : List Spelling) → All IsSpelling l → tokenize (spell_all l) ≡ map token_of l
unfolding tokenize
tokenize-spell_all l h = ap finish_scan (scan-All [] l h)

record ScanNoQuote (s : Scan) : Type 0 where
  tokens : All NoQuote s.tokens
  current : NoQuote s.current

ScanNoQuote-if :
    (b : Bool) (x y : Scan)
    → (b ≡ true → ScanNoQuote x)
    → (b ≡ false → ScanNoQuote y)
    → ScanNoQuote (if b then x else y)
ScanNoQuote-if true x y h k = h refl
ScanNoQuote-if false x y h k = k refl

scan_char-NoQuote : (s : Scan) (c : ℕ) → ScanNoQuote s → ScanNoQuote (scan_char s c)
unfolding scan_char
scan_char-NoQuote s c h =
    ScanNoQuote-if s.in_quotes _ _ (λ _. ScanNoQuote-if (c == quote) _ _ (λ _. kept) pushed)
      (λ _.
        ScanNoQuote-if (c == quote) _ _ (λ _. kept)
          (λ e.
            ScanNoQuote-if (is_whitespace c) _ _
              (λ _. ScanNoQuote-if s.started _ _ (λ _. ended) (λ _. kept)) (λ _. pushed e)))
  where
    kept : {q d : Bool} → ScanNoQuote (record s { in_quotes = q; started = d })
    kept = record { tokens = h.tokens; current = h.current }

    pushed :
        {q d : Bool}
        → (c == quote) ≡ false
        → ScanNoQuote (record s { current = s.current ++ c ∷ []; in_quotes = q; started = d })
    pushed e = record {
      tokens = h.tokens;
      current = All-append (λ x. x ≢ quote) s.current (c ∷ []) h.current (ground arith, tt);
    }

    ended :
        {q d : Bool}
        → ScanNoQuote (record s {
          tokens = s.tokens ++ s.current ∷ [];
          current = [];
          in_quotes = q;
          started = d;
        })
    ended = record {
      tokens = All-append NoQuote s.tokens (s.current ∷ []) h.tokens (h.current, tt);
      current = tt;
    }

scan-NoQuote : (s : Scan) (t : Text) → ScanNoQuote s → ScanNoQuote (scan s t)
unfolding scan
scan-NoQuote s [] h = h
scan-NoQuote s (c ∷ t) h = scan-NoQuote (scan_char s c) t (scan_char-NoQuote s c h)

-- Whatever the input, a token holds no quote.
pub tokenize-NoQuote : (input : Text) → All NoQuote (tokenize input)
unfolding tokenize finish_scan
tokenize-NoQuote input = elim (Bool-cases (scan init input).started) [
  | inl e ↦ rw e (
      All-append NoQuote (scan init input).tokens ((scan init input).current ∷ []) h.tokens
        (h.current, tt))
  | inr e ↦ rw e h.tokens
]
  where
    h : ScanNoQuote (scan init input)
    h = scan-NoQuote init input (record { tokens = tt; current = tt })
