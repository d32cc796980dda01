-- ===== src/Storage/Disk.antt =====
-- The calls of tokio::fs that crates/storage makes, and atomic.rs over them. A path is the list of
-- its components, the last one first. Each call may fail, as the list `faults` says, with the text
-- of its error; an exhausted list means that nothing more fails. A failed call changes no file; what
-- a failed `write_all` leaves in a temporary file is not kept, since no code reads it. Directories
-- are not kept.
use mail_keep.Base.{
  Bool, true, false, ◌&&◌, ◌||◌, Option, none, some, List, [], ◌∷◌, ◌++◌, option_map, String, Text,
  text_eq,
}
use mail_keep.Error.{infrastructure}
use mail_keep.Sql.{Result, ok, err}
use mail_keep.Sql.Table.{find_first, delete_many}

abbrev pub FilePath : Type 0
FilePath = List Text

unfoldable pub path_eq : FilePath → FilePath → Bool
path_eq [] [] = true
path_eq (a ∷ p) (b ∷ q) = text_eq a b && path_eq p q
path_eq _ _ = false

pub record File : Type 0 where
  pub path : FilePath
  pub content : Text

pub record Disk : Type 0 where
  pub files : List File
  pub faults : List (Option String)

abbrev pub Io : Type 0 → Type 0
Io A = Disk → Result A × Disk

-- a call on the files: its answer and the files after it, or a fault and no change
abbrev pub call_with :
    {A : Type 0} → List (Option String) → Result A × List File → Disk → Result A × Disk
call_with [] (r, fs) d = (r, record { files = fs; faults = [] })
call_with (none ∷ rest) (r, fs) d = (r, record { files = fs; faults = rest })
call_with (some e ∷ rest) (r, fs) d = (err (infrastructure e), record d { faults = rest })

unfoldable pub call : {A : Type 0} → (List File → Result A × List File) → Io A
call f d = call_with d.faults (f d.files) d

module _ {A B : Type 0} where
  abbrev pub next : Result A → (A → Io B) → Io B
  next (ok a) f d = f a d
  next (err e) f d = (err e, d)

  infixl 10 ◌>>=◌
  abbrev pub ◌>>=◌ : Io A → (A → Io B) → Io B
  ◌>>=◌ m f d = let (r, d') = m d in next r f d'

unfoldable pub return : {A : Type 0} → A → Io A
return a d = (ok a, d)

abbrev pub at_path : FilePath → File → Bool
at_path p f = path_eq f.path p

-- the content of the file at a path
abbrev pub content_at : FilePath → List File → Option Text
content_at p files = option_map (λ f. f.content) (find_first (at_path p) files)

abbrev pub is_some : {A : Type 0} → Option A → Bool
is_some none = false
is_some (some _) = true

-- the file at a path replaced
abbrev pub put_file : FilePath → Text → List File → List File
put_file p c files = record { path = p; content = c } ∷ delete_many (at_path p) files

-- `fs::try_exists`
unfoldable pub try_exists : FilePath → Io Bool
unfolding call
try_exists p = call (λ fs. (ok (is_some (content_at p fs)), fs))

-- `fs::create_dir_all`, `sync_all` and `File::open` of a directory
unfoldable pub touch : Io (Unit {0})
unfolding call
touch = call (λ fs. (ok tt, fs))

-- `File::create`
unfoldable pub create_file : FilePath → Io (Unit {0})
unfolding call
create_file p = call (λ fs. (ok tt, put_file p [] fs))

-- `write_all` to the file that `File::create` opened
unfoldable pub write_file : FilePath → Text → Io (Unit {0})
unfolding call
write_file p bytes = call (λ fs. (ok tt, put_file p bytes fs))

abbrev pub renamed : FilePath → FilePath → List File → Option Text → Result (Unit {0}) × List File
renamed from to fs none = (err (infrastructure "no such file"), fs)
renamed from to fs (some c) = (ok tt, put_file to c (delete_many (at_path from) fs))

-- `fs::rename`
unfoldable pub rename : FilePath → FilePath → Io (Unit {0})
unfolding call
rename from to = call (λ fs. renamed from to fs (content_at from fs))

-- a path lies in a directory, or is it
unfoldable pub is_under : FilePath → FilePath → Bool
unfolding path_eq
is_under dir [] = path_eq [] dir
is_under dir (s ∷ p) = let rest = is_under dir p in path_eq (s ∷ p) dir || rest

-- `fs::remove_dir_all`; that a missing directory is an error does not show, since its caller takes
-- it for a success
unfoldable pub remove_dir_all : FilePath → Io (Unit {0})
unfolding call is_under
remove_dir_all dir = call (λ fs. (ok tt, delete_many (λ f. is_under dir f.path) fs))

-- the name of the temporary file
abbrev pub tmp_name : Text → Text
tmp_name name = b'.' ∷ name ++ b'.' ∷ b't' ∷ b'm' ∷ b'p' ∷ []

-- `atomic_write_all`
unfoldable pub atomic_write_all : FilePath → Text → Io (Unit {0})
unfolding touch create_file write_file rename
atomic_write_all [] bytes d = (err (infrastructure "path has no parent"), d)
atomic_write_all (name ∷ parent) bytes d =
    (do
      _ ← touch
      _ ← create_file (tmp_name name ∷ parent)
      _ ← write_file (tmp_name name ∷ parent) bytes
      _ ← touch
      _ ← rename (tmp_name name ∷ parent) (name ∷ parent)
      _ ← touch
      touch)
      d
