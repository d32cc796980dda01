-- ===== src/Storage/Paths.antt =====
-- Laws of crates/storage/src/path.rs: a blob has a path of its own.
use mail_keep.Base.{
  ◌==◌, ℕ, ◌/◌, ◌<◌, ◌≡◌, ◌≢◌, refl, sym, ap, ◌∙◌, true, false, [], ◌∷◌, ◌++◌, length, Text,
  text_eq, text_eq_refl, text_eq_sound, Bool-cases, inl, inr, &&-left, &&-right, arith,
}
use mail_keep.Storage.Hash.{hex_digit, as_hex, shard_dirs}
use mail_keep.Storage.HashLaws.{IsHash, length-as_hex, as_hex_injective}
use mail_keep.Storage.Disk.{FilePath, path_eq, is_under, tmp_name}
use mail_keep.Storage.Blobs.{account_root, blob_path, blob_name}

pub path_eq_refl : (p : FilePath) → path_eq p p ≡ true
unfolding path_eq
path_eq_refl [] = refl
path_eq_refl (a ∷ p) = ground (arith, text_eq_refl a, path_eq_refl p)

pub path_eq_sound : (p q : FilePath) → path_eq p q ≡ true → p ≡ q
unfolding path_eq
path_eq_sound [] [] h = refl
path_eq_sound [] (b ∷ q) h = ground (arith, h)
path_eq_sound (a ∷ p) [] h = ground (arith, h)
path_eq_sound (a ∷ p) (b ∷ q) h =
    let e : a ≡ b = text_eq_sound a b (&&-left (text_eq a b) _ h) in
    let k : p ≡ q = path_eq_sound p q (&&-right (text_eq a b) _ h) in rw (e, k) refl

pub path_eq-length : (p q : FilePath) → length p ≢ length q → path_eq p q ≡ false
path_eq-length p q h = elim (Bool-cases (path_eq p q)) [
  | inl e ↦ absurd (h (ap length (path_eq_sound p q e)))
  | inr e ↦ e
]

append_cancel : (a b s : Text) → length a ≡ length b → a ++ s ≡ b ++ s → a ≡ b
append_cancel [] [] s n h = refl
append_cancel [] (y ∷ b) s n h = ground (arith, n)
append_cancel (x ∷ a) [] s n h = ground (arith, n)
append_cancel (x ∷ a) (y ∷ b) s n h =
    let e : x ≡ y = ground (arith, h) in
    let t : a ++ s ≡ b ++ s = ground (arith, h) in
    let k = append_cancel a b s (ground (arith, n)) t in rw (e, k) refl

hex_digit_ne_dot : (d : ℕ) → hex_digit d ≢ b'.'
unfolding hex_digit
hex_digit_ne_dot d = λ e. ground (arith, e)

-- a temporary file is no blob
pub blob_ne_tmp :
    (decimal : ℕ → Text) (root : FilePath) (a : ℕ) (h name : Text) (parent : FilePath)
    → IsHash h
    → path_eq (tmp_name name ∷ parent) (blob_path decimal root a h) ≡ false
unfolding path_eq blob_path as_hex text_eq
blob_ne_tmp decimal root a [] name parent i = ground (arith, i.0)
blob_ne_tmp decimal root a (b ∷ h) name parent i = ground (arith, hex_digit_ne_dot (b / 16))

module _ (decimal : ℕ → Text) (root : FilePath)
    (decimal_injective : (a b : ℕ) → decimal a ≡ decimal b → a ≡ b) where
  pub blob_path_account :
      (a b : ℕ) (g h : Text) → blob_path decimal root a g ≡ blob_path decimal root b h → a ≡ b
  unfolding blob_path account_root
  blob_path_account a b g h e = decimal_injective a b (ground (arith, e))

  pub blob_path_hash :
      (a b : ℕ) (g h : Text)
      → IsHash g
      → IsHash h
      → blob_path decimal root a g ≡ blob_path decimal root b h
      → g ≡ h
  unfolding blob_path
  blob_path_hash a b g h i j e =
      let names : blob_name decimal root g ≡ blob_name decimal root h = ground (arith, e) in
      as_hex_injective g h i j (
        append_cancel (as_hex g) (as_hex h) _
          (omega (arith, length-as_hex g, length-as_hex h, i.0, j.0)) names)

  is_under-length : (dir p : FilePath) → length p < length dir → is_under dir p ≡ false
  unfolding is_under
  is_under-length dir [] h = path_eq-length [] dir λ e. omega (arith, e, h)
  is_under-length dir (s ∷ p) h =
      let apart = path_eq-length (s ∷ p) dir λ e. omega (arith, e, h) in
      let rest = is_under-length dir p (omega (arith, h)) in rw (apart, rest) refl

  root_apart : (a : ℕ) → is_under (account_root decimal root a) root ≡ false
  unfolding account_root
  root_apart a = is_under-length (decimal a ∷ root) root (omega arith)

  same_account :
      (a b : ℕ) → path_eq (account_root decimal root b) (account_root decimal root a) ≡ (b == a)
  unfolding account_root
  same_account a b = elim (Bool-cases (b == a)) [
    | inl e ↦ let k : b ≡ a = ground (arith, e) in rw (e, k) (path_eq_refl (decimal a ∷ root))
    | inr e ↦ elim (Bool-cases (path_eq (decimal b ∷ root) (decimal a ∷ root))) [
      | inl p ↦
          let q = path_eq_sound (decimal b ∷ root) (decimal a ∷ root) p in
          let k : b ≡ a = decimal_injective b a (ground (arith, q)) in ground (arith, e, k)
      | inr p ↦ p ∙ sym e
    ]
  ]

  -- A blob lies in the directory of its account and in no other account's.
  pub is_under-blob_path :
      (a b : ℕ) (h : Text)
      → is_under (account_root decimal root a) (blob_path decimal root b h) ≡ (b == a)
  unfolding is_under blob_path account_root
  is_under-blob_path a b h =
      let up3 =
        path_eq-length ((shard_dirs h).1 ∷ (shard_dirs h).0 ∷ decimal b ∷ root) root
          λ e. omega (arith, e) in
      let up2 = path_eq-length ((shard_dirs h).0 ∷ decimal b ∷ root) root λ e. omega (arith, e) in
      let up1 = path_eq-length (decimal b ∷ root) root λ e. omega (arith, e) in
      rw (up3, up2, up1, root_apart a) (ground (arith, same_account a b))
