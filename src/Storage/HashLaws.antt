-- ===== src/Storage/HashLaws.antt =====
-- Laws of crates/core/src/types/content_hash.rs.
use mail_keep.Base.{
  ℕ, ◌+◌, ◌*◌, ◌/◌, ◌%◌, ◌<◌, ◌≡◌, ◌≢◌, refl, sym, ap, ◌∙◌, some, [], ◌∷◌, ==_ne, All, length, Text,
  arith,
}
use mail_keep.Sql.{ok}
use mail_keep.Storage.Hash.{hex_digit, as_hex, digit_value, pair_value, parse_pairs, from_hex}

abbrev pub IsBytes : Text → Type 0
IsBytes h = All (λ b. b < 256) h

-- `[u8; 32]`
abbrev pub IsHash : Text → Type 0
IsHash h = (length h ≡ 32) × IsBytes h

hex_digit-digit_value : (d : ℕ) → d < 16 → digit_value (hex_digit d) ≡ some d
unfolding hex_digit digit_value
hex_digit-digit_value d h = ground (arith, h)

hex_digit_ne : (d : ℕ) → d < 16 → hex_digit d ≢ b'+'
unfolding hex_digit
hex_digit_ne d h = λ e. ground (arith, h, e)

pair_lem : (b : ℕ) → b < 256 → pair_value (hex_digit (b / 16)) (hex_digit (b % 16)) ≡ some b
unfolding pair_value
pair_lem b h =
    let hi : b / 16 < 16 = omega (arith, h) in
    let lo : b % 16 < 16 = omega arith in
    let whole : (b / 16) * 16 + b % 16 ≡ b = omega arith in
    rw
      (
        ==_ne (hex_digit (b / 16)) b'+' (hex_digit_ne (b / 16) hi),
        hex_digit-digit_value (b / 16) hi,
        hex_digit-digit_value (b % 16) lo,
      )
      (ap (λ x. some x) whole)

parse_pairs-as_hex : (h : Text) → IsBytes h → parse_pairs (as_hex h) ≡ ok h
unfolding parse_pairs as_hex
parse_pairs-as_hex [] k = refl
parse_pairs-as_hex (b ∷ h) (i, k) = rw (pair_lem b i, parse_pairs-as_hex h k) refl

pub length-as_hex : (h : Text) → length (as_hex h) ≡ length h + length h
unfolding as_hex
length-as_hex [] = omega arith
length-as_hex (b ∷ h) = omega (arith, length-as_hex h)

-- Every hash of 32 bytes is read back from its hexadecimal form.
pub from_hex-as_hex : (h : Text) → IsHash h → from_hex (as_hex h) ≡ ok h
unfolding from_hex
from_hex-as_hex h (n, k) =
    let size : length (as_hex h) ≡ 64 = omega (arith, length-as_hex h, n) in
    rw (size) (parse_pairs-as_hex h k)

-- Two hashes of one hexadecimal form are one hash.
pub as_hex_injective : (g h : Text) → IsHash g → IsHash h → as_hex g ≡ as_hex h → g ≡ h
as_hex_injective g h i j e =
    let same = sym (from_hex-as_hex g i) ∙ ap from_hex e ∙ from_hex-as_hex h j in
    ground (arith, same)
