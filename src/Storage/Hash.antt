-- ===== src/Storage/Hash.antt =====
-- crates/core/src/types/content_hash.rs. A string is the list of its bytes; SHA-256 itself is a
-- parameter of the storage.
use mail_keep.Base.{
  ℕ, ◌+◌, ◌-◌, ◌*◌, ◌/◌, ◌%◌, ◌&&◌, Option, none, some, [], ◌∷◌, ◌==◌, leb, if◌then◌else◌, length,
  Text,
}
use mail_keep.Error.{validation}
use mail_keep.Sql.{Result, ok, err}

-- a digit of `{:02x}`
unfoldable pub hex_digit : ℕ → ℕ
hex_digit d = if leb d 9 then d + 48 else d + 87

-- `as_hex`
unfoldable pub as_hex : Text → Text
unfolding hex_digit
as_hex [] = []
as_hex (b ∷ rest) = hex_digit (b / 16) ∷ hex_digit (b % 16) ∷ as_hex rest

-- `char::to_digit(16)`
unfoldable pub digit_value : ℕ → Option ℕ
digit_value c =
    if leb b'0' c && leb c b'9'
    then some (c - 48)
    else if leb b'a' c && leb c b'f'
    then some (c - 87)
    else if leb b'A' c && leb c b'F'
    then some (c - 55)
    else none

abbrev pub two_digits : Option ℕ → Option ℕ → Option ℕ
two_digits (some a) (some b) = some (a * 16 + b)
two_digits (some a) none = none
two_digits none _ = none

-- `u8::from_str_radix(pair, 16)`, which takes a leading plus sign
unfoldable pub pair_value : ℕ → ℕ → Option ℕ
unfolding digit_value
pair_value a b = if a == b'+' then digit_value b else two_digits (digit_value a) (digit_value b)

abbrev push_byte : Option ℕ → Result Text → Result Text
push_byte none rest = err (validation "invalid digit found in string")
push_byte (some v) (ok bytes) = ok (v ∷ bytes)
push_byte (some v) (err e) = err e

-- the loop of `from_hex` over the pairs of bytes
unfoldable pub parse_pairs : Text → Result Text
unfolding pair_value
parse_pairs [] = ok []
parse_pairs (a ∷ []) = ok []
parse_pairs (a ∷ b ∷ rest) = push_byte (pair_value a b) (parse_pairs rest)

-- `from_hex`
unfoldable pub from_hex : Text → Result Text
unfolding parse_pairs
from_hex s =
    if length s == 64 then parse_pairs s else err (validation "ContentHash hex must be 64 chars")

-- `shard_dirs`
unfoldable pub shard_dirs : Text → Text × Text
unfolding as_hex
shard_dirs (a ∷ b ∷ rest) = (as_hex (a ∷ []), as_hex (b ∷ []))
shard_dirs _ = ([], [])
