-- ===== src/Storage/Keys.antt =====
-- The storage of crates/storage as a set of keys.
use mail_keep.Base.{
  ℕ, ◌≡◌, refl, sym, ap, ◌∙◌, Bool, true, false, ◌&&◌, ◌||◌, not, none, some, List, [], ◌∷◌, ◌==◌,
  ==_refl, Text, text_eq, text_eq_refl, text_eq_sound, Bool-cases, inl, inr, arith, if◌then◌else◌,
}
use mail_keep.Sql.{ok}
use mail_keep.Sql.Table.{delete_many}
use mail_keep.Storage.HashLaws.{IsHash}
use mail_keep.Storage.Disk.{
  FilePath, File, Disk, call, content_at, is_some, is_under, path_eq, remove_dir_all, try_exists,
}
use mail_keep.Storage.Blobs.{delete_blobs, exists, account_root}
use mail_keep.Storage.Paths.{
  path_eq_refl, path_eq_sound, blob_path_account, blob_path_hash, is_under-blob_path,
}
use mail_keep.Storage.Integrity.{
  Outside, blob, IsSound, put, settled, left-Stored, put_if_absent-Leaves, start_Since,
}

removed :
    (dir q : FilePath) (fs : List File)
    → content_at q (delete_many (λ f. is_under dir f.path) fs)
      ≡ (if is_under dir q then none else content_at q fs)
removed dir q [] = ground arith
removed dir q (f ∷ fs) = elim (Bool-cases (path_eq f.path q)) [
  | inl e ↦ rw (path_eq_sound f.path q e) (elim (Bool-cases (is_under dir q)) [
    | inl k ↦ rw k (removed dir q fs ∙ ap (λ b. if b then none else content_at q fs) k)
    | inr k ↦ rw (k, path_eq_refl q) refl
  ])
  | inr e ↦ ground (arith, e, removed dir q fs)
]

module _ (o : Outside) (root : FilePath) where
  -- The abstract storage: which contents of which accounts are there.
  abbrev pub keys : Disk → ℕ → Text → Bool
  keys d a h = is_some (content_at (blob o root a h) d.files)

  apart :
      (a b : ℕ) (g h : Text)
      → path_eq (blob o root a g) (blob o root b h) ≡ false
      → (b == a && text_eq h g) ≡ false
  apart a b g h p = elim (Bool-cases (b == a && text_eq h g)) [
    | inl e ↦
        let ab : b ≡ a = ground (arith, e) in
        let gh : h ≡ g = text_eq_sound h g (ground (arith, e)) in
        let same : path_eq (blob o root a g) (blob o root b h) ≡ true =
          rw (ab, gh) (path_eq_refl (blob o root a g)) in
        ground (arith, same, p)
    | inr e ↦ e
  ]

  together :
      (a b : ℕ) (g h : Text)
      → IsHash g
      → IsHash h
      → path_eq (blob o root a g) (blob o root b h) ≡ true
      → (b == a && text_eq h g) ≡ true
  together a b g h i j p =
      let q = path_eq_sound (blob o root a g) (blob o root b h) p in
      let ab = blob_path_account o.decimal root o.decimal_injective a b g h q in
      let gh = blob_path_hash o.decimal root o.decimal_injective a b g h i j q in
      rw (ab, gh, ==_refl b, text_eq_refl h) refl

  pub keys-put :
      (account : ℕ) (plaintext : Text) (d : Disk) (g : Text)
      → IsSound o root d.files
      → (put o root account plaintext d).0 ≡ ok g
      → (a : ℕ) (h : Text) → IsHash h
      → keys (put o root account plaintext d).1 a h
        ≡ (keys d a h || (a == account && text_eq h (o.sha256 plaintext)))
  keys-put account plaintext d g s e a h i =
      let hash = o.sha256 plaintext in
      let (since, x, there) =
        left-Stored o root account plaintext d.files (put o root account plaintext d) g e (
          put_if_absent-Leaves o root account plaintext d.files d
            (start_Since o root account plaintext d.files s)) in
      elim (Bool-cases (path_eq (blob o root account hash) (blob o root a h))) [
        | inl p ↦
            let q = path_eq_sound (blob o root account hash) (blob o root a h) p in
            let k = together account a hash h (o.sha256_size plaintext) i p in
            let found : content_at (blob o root a h) (put o root account plaintext d).1.files
                ≡ some x =
              rw (sym q) there in
            rw (found, k) (ground arith)
        | inr p ↦ let k = apart account a hash h p in rw (since.1 a h i p, k) (ground arith)
      ]

  keys-delete_blobs :
      (account : ℕ) (d : Disk) (a : ℕ) (h : Text)
      → keys (delete_blobs o.decimal root account (settled o root d)).1 a h
        ≡ (keys d a h && not (a == account))
  unfolding delete_blobs remove_dir_all call
  keys-delete_blobs account d a h =
      let dir = account_root o.decimal root account in
      let under = is_under-blob_path o.decimal root o.decimal_injective account a h in
      rw (removed dir (blob o root a h) d.files, under) (ground arith)

  -- The storage refines a set of keys, an account and a hash each: a successful `put_if_absent` adds
  -- the key of the plaintext and no other, `delete_account` removes the keys of the account and no
  -- other, and `exists` tells whether a key is there. Every blob decrypted to a plaintext of its hash
  -- before, and no call of `delete_account` or `exists` fails.
  pub storage_refines_keys :
      (account : ℕ) (plaintext : Text) (d : Disk) (g : Text) (a : ℕ) (h : Text)
      → IsSound o root d.files
      → (put o root account plaintext d).0 ≡ ok g
      → IsHash h
      → (keys (put o root account plaintext d).1 a h
          ≡ (keys d a h || (a == account && text_eq h (o.sha256 plaintext))))
        × (keys (delete_blobs o.decimal root account (settled o root d)).1 a h
            ≡ (keys d a h && not (a == account)))
        × ((exists o.decimal root a h (settled o root d)).0 ≡ ok (keys d a h))
  unfolding exists try_exists call
  storage_refines_keys account plaintext d g a h s e i =
      (keys-put account plaintext d g s e a h i, keys-delete_blobs account d a h, refl)
