-- ===== src/Storage/Toy.antt =====
-- A decimal form, a hash and a cipher that compute, for tests.
use mail_keep.Base.{ℕ, zero, suc, ◌%◌, refl, [], ◌∷◌, Text, arith, ap}
use mail_keep.Sql.{ok}
use mail_keep.Storage.HashLaws.{IsHash, IsBytes}
use mail_keep.Storage.Integrity.{Outside}

-- a hash that only looks at the first byte
abbrev first_byte : Text → ℕ
first_byte [] = 0
first_byte (b ∷ _) = b % 256

abbrev zeros : ℕ → Text
zeros zero = []
zeros (suc n) = 0 ∷ zeros n

abbrev pub toy_hash : Text → Text
toy_hash x = first_byte x ∷ zeros 31

zeros-IsBytes : (n : ℕ) → IsBytes (zeros n)
zeros-IsBytes zero = _
zeros-IsBytes (suc n) = (omega arith, zeros-IsBytes n)

pub toy_hash-IsHash : (x : Text) → IsHash (toy_hash x)
toy_hash-IsHash [] = (refl, (omega arith, zeros-IsBytes 31))
toy_hash-IsHash (b ∷ x) = (refl, (omega arith, zeros-IsBytes 31))

abbrev first_item : Text → ℕ
first_item [] = 0
first_item (a ∷ _) = a

abbrev drop_first : Text → Text
drop_first [] = []
drop_first (_ ∷ x) = x

abbrev pub toy : Outside
toy = record {
  decimal = λ a. a ∷ [];
  decimal_injective = λ a b e. ap first_item e;
  sha256 = toy_hash;
  sha256_size = toy_hash-IsHash;
  encrypt = λ a x. a ∷ x;
  decrypt = λ a x. ok (drop_first x);
  decrypt_encrypt = λ a x. refl;
}
