-- ===== src/Storage/Writes.antt =====
-- Laws of crates/storage/src/atomic.rs: what a write can leave behind when a call of the file system
-- fails. `I` holds of the files throughout.
use mail_keep.Base.{
  ◌≡◌, refl, false, Option, none, some, List, [], ◌∷◌, String, Text, Bool-cases, inl, inr, arith,
}
use mail_keep.Sql.{Result, ok, err}
use mail_keep.Sql.Table.{delete_many}
use mail_keep.Storage.Disk.{
  FilePath, File, Disk, Io, call, call_with, next, path_eq, at_path, content_at, put_file, touch,
  create_file, write_file, rename, renamed, tmp_name, atomic_write_all,
}
use mail_keep.Storage.Paths.{path_eq_refl, path_eq_sound}

pub elsewhere :
    (p q : FilePath) (files : List File)
    → path_eq p q ≡ false
    → content_at q (delete_many (at_path p) files) ≡ content_at q files
elsewhere p q [] h = refl
elsewhere p q (f ∷ files) h = elim (Bool-cases (path_eq f.path p)) [
  | inl e ↦
      let there : path_eq f.path q ≡ false = rw (path_eq_sound f.path p e) h in
      rw (e, there) (elsewhere p q files h)
  | inr e ↦ ground (arith, e, elsewhere p q files h)
]

pub content_at-put_file :
    (p : FilePath) (c : Text) (files : List File) → content_at p (put_file p c files) ≡ some c
content_at-put_file p c files = rw (path_eq_refl p) refl

pub content_elsewhere :
    (p q : FilePath) (c : Text) (files : List File)
    → path_eq p q ≡ false
    → content_at q (put_file p c files) ≡ content_at q files
content_elsewhere p q c files h = rw h (elsewhere p q files h)

module _ (I : List File → Type 0) where
  -- `Q` after a success, and `I` after a failure
  abbrev pub Leaves : {A : Type 0} → (List File → Type 0) → Result A × Disk → Type 0
  Leaves Q (ok a, d) = Q d.files
  Leaves Q (err e, d) = I d.files

  -- the same of a call's answer and the files after it
  abbrev LeavesFiles : {A : Type 0} → (List File → Type 0) → Result A × List File → Type 0
  LeavesFiles Q (ok a, fs) = Q fs
  LeavesFiles Q (err e, fs) = I fs

  call_with-Leaves :
      {A : Type 0} (l : List (Option String)) (r : Result A) (fs : List File) (d : Disk)
      (Q : List File → Type 0)
      → I d.files
      → LeavesFiles Q (r, fs)
      → Leaves Q (call_with l (r, fs) d)
  call_with-Leaves [] (ok a) fs d Q i h = h
  call_with-Leaves [] (err e) fs d Q i h = h
  call_with-Leaves (none ∷ l) (ok a) fs d Q i h = h
  call_with-Leaves (none ∷ l) (err e) fs d Q i h = h
  call_with-Leaves (some e ∷ l) r fs d Q i h = i

  pub call-Leaves :
      {A : Type 0} (f : List File → Result A × List File) (d : Disk) (Q : List File → Type 0)
      → I d.files
      → LeavesFiles Q (f d.files)
      → Leaves Q (call f d)
  unfolding call
  call-Leaves f d Q i h = call_with-Leaves d.faults (f d.files).0 (f d.files).1 d Q i h

  pub then-Leaves :
      {A B : Type 0} (P Q : List File → Type 0) (x : Result A × Disk) (f : A → Io B)
      → Leaves P x
      → ((a : A) (d : Disk) → P d.files → Leaves Q (f a d))
      → Leaves Q (next x.0 f x.1)
  then-Leaves P Q (ok a, d) f h k = k a d h
  then-Leaves P Q (err e, d) f h k = h

  touch-Leaves : (d : Disk) (P : List File → Type 0) → I d.files → P d.files → Leaves P (touch d)
  unfolding touch
  touch-Leaves d P i p = call-Leaves (λ fs. (ok tt, fs)) d P i p

  module _ (name : Text) (parent : FilePath) (bytes : Text)
      (keeps_tmp : (fs : List File) (c : Text) → I fs → I (put_file (tmp_name name ∷ parent) c fs))
      (keeps_rename : (fs : List File)
        → I fs
        → I (
            put_file
              (name ∷ parent)
              bytes
              (delete_many (at_path (tmp_name name ∷ parent)) fs))) where
    abbrev Written : List File → Type 0
    Written fs = I fs × (content_at (tmp_name name ∷ parent) fs ≡ some bytes)

    abbrev Moved : List File → Type 0
    Moved fs = I fs × (content_at (name ∷ parent) fs ≡ some bytes)

    create-Leaves : (d : Disk) → I d.files → Leaves I (create_file (tmp_name name ∷ parent) d)
    unfolding create_file
    create-Leaves d i =
        call-Leaves (λ fs. (ok tt, put_file (tmp_name name ∷ parent) [] fs)) d I i
          (keeps_tmp d.files [] i)

    write-Leaves :
        (d : Disk) → I d.files → Leaves Written (write_file (tmp_name name ∷ parent) bytes d)
    unfolding write_file
    write-Leaves d i =
        call-Leaves (λ fs. (ok tt, put_file (tmp_name name ∷ parent) bytes fs)) d Written i
          (keeps_tmp d.files bytes i, content_at-put_file (tmp_name name ∷ parent) bytes d.files)

    rename-Leaves :
        (d : Disk)
        → Written d.files
        → Leaves Moved (rename (tmp_name name ∷ parent) (name ∷ parent) d)
    unfolding rename
    rename-Leaves d (i, w) =
        call-Leaves
          (λ fs.
            renamed (tmp_name name ∷ parent) (name ∷ parent) fs
              (content_at (tmp_name name ∷ parent) fs))
          d Moved i
          (rw w (
            keeps_rename d.files i,
            content_at-put_file (name ∷ parent) bytes
                (delete_many (at_path (tmp_name name ∷ parent)) d.files),
          ))

    -- A write that succeeds leaves the bytes under the path.
    pub atomic_write_all-Leaves :
        (d : Disk)
        → I d.files
        → Leaves
            (λ fs. I fs × (content_at (name ∷ parent) fs ≡ some bytes))
            (atomic_write_all (name ∷ parent) bytes d)
    unfolding atomic_write_all
    atomic_write_all-Leaves d i = then-Leaves I Moved (touch d) _ (touch-Leaves d I i i) λ _ d1 i1.
        then-Leaves I Moved (create_file (tmp_name name ∷ parent) d1) _ (create-Leaves d1 i1)
          λ _ d2 i2.
            then-Leaves Written Moved (write_file (tmp_name name ∷ parent) bytes d2) _
              (write-Leaves d2 i2)
              λ _ d3 w3.
                then-Leaves Written Moved (touch d3) _ (touch-Leaves d3 Written w3.0 w3) λ _ d4 w4.
                  then-Leaves Moved Moved (rename (tmp_name name ∷ parent) (name ∷ parent) d4) _
                    (rename-Leaves d4 w4)
                    λ _ d5 m5.
                      then-Leaves Moved Moved (touch d5) _ (touch-Leaves d5 Moved m5.0 m5)
                        λ _ d6 m6. touch-Leaves d6 Moved m6.0 m6
