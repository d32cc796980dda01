-- ===== src/Storage/Integrity.antt =====
-- Laws of crates/storage/src/raw.rs and attachment.rs: a blob holds what its name says.
use mail_keep.Base.{
  String, ℕ, ◌≡◌, refl, sym, ◌∙◌, Bool, true, false, Option, none, some, List, [], ◌∷◌, Text,
  Bool-cases, inl, inr, arith,
}
use mail_keep.Sql.{Result, ok, err}
use mail_keep.Sql.Table.{delete_many}
use mail_keep.Storage.HashLaws.{IsHash}
use mail_keep.Storage.Disk.{
  FilePath, File, Disk, call, call_with, next, return, path_eq, at_path, content_at, put_file,
  tmp_name, is_some, try_exists, atomic_write_all,
}
use mail_keep.Storage.Blobs.{blob_path, blob_name, put_if_absent, put_absent, get, account_root}
use mail_keep.Storage.Hash.{shard_dirs}
use mail_keep.Storage.Paths.{path_eq_sound, blob_ne_tmp, blob_path_account, blob_path_hash}
use mail_keep.Storage.Writes.{
  Leaves, elsewhere, content_elsewhere, then-Leaves, atomic_write_all-Leaves,
}

-- What the storage relies on of code outside of this repository: that the decimal forms of two ids
-- differ, that SHA-256 has 32 bytes, and that the cipher decrypts what it encrypted.
pub record Outside : Type 0 where
  pub decimal : ℕ → Text
  pub decimal_injective : (a b : ℕ) → decimal a ≡ decimal b → a ≡ b
  pub sha256 : Text → Text
  pub sha256_size : (x : Text) → IsHash (sha256 x)
  pub encrypt : ℕ → Text → Text
  pub decrypt : ℕ → Text → Result Text
  pub decrypt_encrypt : (a : ℕ) (x : Text) → decrypt a (encrypt a x) ≡ ok x

module _ (o : Outside) (root : FilePath) where
  abbrev pub blob : ℕ → Text → FilePath
  blob a h = blob_path o.decimal root a h

  -- what a blob says: it decrypts to a plaintext of the hash in its name
  abbrev pub Holds : ℕ → Text → Text → Type 0
  Holds a h x = (p : Text) × (o.decrypt a x ≡ ok p) × (o.sha256 p ≡ h)

  abbrev pub IsSound : List File → Type 0
  IsSound fs = (a : ℕ) (h x : Text) → IsHash h → content_at (blob a h) fs ≡ some x → Holds a h x

  module _ (account : ℕ) (plaintext : Text) (start : List File) where
    abbrev hash : Text
    hash = o.sha256 plaintext

    abbrev SameElse : List File → Type 0
    SameElse fs =
        (a : ℕ) (h : Text)
        → IsHash h
        → path_eq (blob account hash) (blob a h) ≡ false
        → content_at (blob a h) fs ≡ content_at (blob a h) start

    abbrev Since : List File → Type 0
    Since fs = IsSound fs × SameElse fs

    abbrev tmp : FilePath
    tmp =
        let (ab, cd) = shard_dirs hash in
        tmp_name (blob_name o.decimal root hash) ∷ cd ∷ ab ∷ account_root o.decimal root account

    tmp_apart : (a : ℕ) (h : Text) → IsHash h → path_eq tmp (blob a h) ≡ false
    tmp_apart a h i = blob_ne_tmp o.decimal root a h (blob_name o.decimal root hash) _ i

    keeps_tmp : (fs : List File) (c : Text) → Since fs → Since (put_file tmp c fs)
    keeps_tmp fs c (sound, same) = (
      λ a h x i e.
          sound a h x i (sym (content_elsewhere tmp (blob a h) c fs (tmp_apart a h i)) ∙ e),
      λ a h i d. content_elsewhere tmp (blob a h) c fs (tmp_apart a h i) ∙ same a h i d,
    )

    -- the bytes that `put_if_absent` encrypts
    abbrev cipher_text : Text
    cipher_text = o.encrypt account plaintext

    others :
        (fs : List File) (a : ℕ) (h : Text)
        → IsHash h
        → path_eq (blob account hash) (blob a h) ≡ false
        → content_at
            (blob a h)
            (put_file (blob account hash) cipher_text (delete_many (at_path tmp) fs))
          ≡ content_at (blob a h) fs
    others fs a h i d =
        content_elsewhere (blob account hash) (blob a h) cipher_text (delete_many (at_path tmp) fs)
          d
        ∙ elsewhere tmp (blob a h) fs (tmp_apart a h i)

    own :
        (fs : List File) (a : ℕ) (h x : Text)
        → IsHash h
        → path_eq (blob account hash) (blob a h) ≡ true
        → content_at
            (blob a h)
            (put_file (blob account hash) cipher_text (delete_many (at_path tmp) fs))
          ≡ some x
        → Holds a h x
    own fs a h x i d e =
        let p = path_eq_sound (blob account hash) (blob a h) d in
        let same_account =
          blob_path_account o.decimal root o.decimal_injective account a hash h p in
        let same_hash =
          blob_path_hash o.decimal root o.decimal_injective account a hash h
            (o.sha256_size plaintext) i p in
        let written : cipher_text ≡ x = ground (arith, e, d) in
        (
          plaintext,
          rw (sym same_account, sym written) (o.decrypt_encrypt account plaintext),
          same_hash,
        )

    keeps_rename :
        (fs : List File)
        → Since fs
        → Since (put_file (blob account hash) cipher_text (delete_many (at_path tmp) fs))
    keeps_rename fs (sound, same) = (
      λ a h x i e. elim (Bool-cases (path_eq (blob account hash) (blob a h))) [
        | inl d ↦ own fs a h x i d e
        | inr d ↦ sound a h x i (sym (others fs a h i d) ∙ e)
      ],
      λ a h i d. others fs a h i d ∙ same a h i d,
    )

    -- after a success the blob is there as well
    abbrev Stored : List File → Type 0
    Stored fs = Since fs × (x : Text) × (content_at (blob account hash) fs ≡ some x)

    write-Leaves :
        (d : Disk)
        → Since d.files
        → Leaves Since Stored
            (put_absent o.decimal root o.sha256 o.encrypt account plaintext false d)
    unfolding blob_path return
    write-Leaves d i =
        let written = atomic_write_all (blob account hash) cipher_text d in
        then-Leaves Since (λ fs. Since fs × (content_at (blob account hash) fs ≡ some cipher_text))
          Stored written (λ _. return hash)
          (atomic_write_all-Leaves Since (blob_name o.decimal root hash) _ cipher_text keeps_tmp
            keeps_rename d i)
          (λ _ d' k. (k.0, cipher_text, k.1))

    -- what `try_exists` found
    abbrev Found : Bool → List File → Type 0
    Found true fs = Stored fs
    Found false fs = Since fs

    tested :
        (fs : List File) (x : Option Text)
        → Since fs
        → content_at (blob account hash) fs ≡ x
        → Found (is_some x) fs
    tested fs none i e = i
    tested fs (some x) i e = (i, x, e)

    end-Leaves :
        (there : Bool) (d : Disk)
        → Found there d.files
        → Leaves Since Stored
            (put_absent o.decimal root o.sha256 o.encrypt account plaintext there d)
    unfolding return
    end-Leaves true d i = i
    end-Leaves false d i = write-Leaves d i

    after_test :
        (l : List (Option String)) (d : Disk)
        → Since d.files
        → let there : Bool = is_some (content_at (blob account hash) d.files) in
          let x = call_with l (ok there, d.files) d in
          Leaves Since Stored
            (next x.0 (put_absent o.decimal root o.sha256 o.encrypt account plaintext) x.1)
    after_test [] d i = end-Leaves _ (record d { faults = [] }) (tested d.files _ i refl)
    after_test (none ∷ l) d i = end-Leaves _ (record d { faults = l }) (tested d.files _ i refl)
    after_test (some e ∷ l) d i = i

    pub put_if_absent-Leaves :
        (d : Disk)
        → Since d.files
        → Leaves Since Stored (put_if_absent o.decimal root o.sha256 o.encrypt account plaintext d)
    unfolding put_if_absent try_exists call
    put_if_absent-Leaves d i = after_test d.faults d i

  abbrev pub put : ℕ → Text → Disk → Result Text × Disk
  put account plaintext d = put_if_absent o.decimal root o.sha256 o.encrypt account plaintext d

  abbrev pub settled : Disk → Disk
  settled d = record d { faults = [] }

  pub start_Since :
      (account : ℕ) (plaintext : Text) (fs : List File) → IsSound fs → Since account plaintext fs fs
  start_Since account plaintext fs s = (s, λ a h i d. refl)

  left-Since :
      (account : ℕ) (plaintext : Text) (start : List File) (x : Result Text × Disk)
      → Leaves (Since account plaintext start) (Stored account plaintext start) x
      → Since account plaintext start x.1.files
  left-Since account plaintext start (ok h, d) k = k.0
  left-Since account plaintext start (err e, d) k = k

  pub left-Stored :
      (account : ℕ) (plaintext : Text) (start : List File) (x : Result Text × Disk) (h : Text)
      → x.0 ≡ ok h
      → Leaves (Since account plaintext start) (Stored account plaintext start) x
      → Stored account plaintext start x.1.files
  left-Stored account plaintext start (ok g, d) h e k = k
  left-Stored account plaintext start (err z, d) h e k = ground (arith, e)

  -- Whichever call of the file system fails, and wherever in the write, every blob keeps decrypting
  -- to a plaintext of the hash in its name.
  pub put_if_absent-IsSound :
      (account : ℕ) (plaintext : Text) (d : Disk)
      → IsSound d.files
      → IsSound (put account plaintext d).1.files
  put_if_absent-IsSound account plaintext d s =
      (left-Since account plaintext d.files (put account plaintext d) (
        put_if_absent-Leaves account plaintext d.files d
          (start_Since account plaintext d.files s))).0

  read_back :
      (account : ℕ) (h x : Text) (d : Disk) (p : Text)
      → content_at (blob account h) d.files ≡ some x
      → o.decrypt account x ≡ ok p
      → (get o.decimal root o.decrypt account h (settled d)).0 ≡ ok p
  unfolding get call
  read_back account h x d p e k = rw (e, k) refl

  -- After a successful `put_if_absent` the blob is read back, as a plaintext of the hash of what was
  -- given. Every blob decrypted to a plaintext of its hash before, and reading does not fail.
  pub put_if_absent-get :
      (account : ℕ) (plaintext : Text) (d : Disk) (h : Text)
      → IsSound d.files
      → (put account plaintext d).0 ≡ ok h
      → (p : Text) × ((get o.decimal root o.decrypt account
            (o.sha256 plaintext)
            (settled (put account plaintext d).1)).0
          ≡ ok p)
        × (o.sha256 p ≡ o.sha256 plaintext)
  put_if_absent-get account plaintext d h s e =
      let after = put account plaintext d in
      let (since, x, there) = left-Stored account plaintext d.files after h e (
        put_if_absent-Leaves account plaintext d.files d
          (start_Since account plaintext d.files s)) in
      let (p, k, same) = since.0 account (o.sha256 plaintext) x (o.sha256_size plaintext) there in
      (p, read_back account (o.sha256 plaintext) x after.1 p there k, same)
