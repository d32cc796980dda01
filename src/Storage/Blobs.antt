-- ===== src/Storage/Blobs.antt =====
-- crates/storage/src/raw.rs, attachment.rs and path.rs: the two storages differ in their root only.
-- SHA-256, the cipher and the decimal form of an account's id stand outside of this repository;
-- a nonce is drawn with each call of the cipher, so `encrypt` is the cipher of one call.
use mail_keep.Base.{ℕ, Bool, true, false, Option, none, some, [], ◌∷◌, ◌++◌, Text}
use mail_keep.Error.{blob_not_found}
use mail_keep.Sql.{Result, ok, err}
use mail_keep.Storage.Hash.{as_hex, shard_dirs}
use mail_keep.Storage.Disk.{
  FilePath, Io, call, ◌>>=◌, return, content_at, try_exists, atomic_write_all, remove_dir_all,
}

module _ (decimal : ℕ → Text) (root : FilePath) where
  -- `account_root`
  unfoldable pub account_root : ℕ → FilePath
  account_root account = decimal account ∷ root

  abbrev pub blob_name : Text → Text
  blob_name hash = as_hex hash ++ b'.' ∷ b'b' ∷ b'i' ∷ b'n' ∷ []

  -- `blob_path`
  unfoldable pub blob_path : ℕ → Text → FilePath
  unfolding as_hex shard_dirs account_root
  blob_path account hash =
      let (ab, cd) = shard_dirs hash in blob_name hash ∷ cd ∷ ab ∷ account_root account

  module _ (sha256 : Text → Text) (encrypt : ℕ → Text → Text) where
    -- what `put_if_absent` does after the test
    abbrev pub put_absent : ℕ → Text → Bool → Io Text
    put_absent account plaintext true = return (sha256 plaintext)
    put_absent account plaintext false = do
      _ ← atomic_write_all (blob_path account (sha256 plaintext)) (encrypt account plaintext)
      return (sha256 plaintext)

    -- `put_if_absent`
    unfoldable pub put_if_absent : ℕ → Text → Io Text
    unfolding try_exists
    put_if_absent account plaintext = do
      there ← try_exists (blob_path account (sha256 plaintext))
      put_absent account plaintext there

  abbrev read_or_not_found : ℕ → Option Text → Result Text
  read_or_not_found account none = err (blob_not_found account "hash")
  read_or_not_found account (some bytes) = ok bytes

  module _ (decrypt : ℕ → Text → Result Text) where
    -- `get`
    unfoldable pub get : ℕ → Text → Io Text
    unfolding blob_path call
    get account hash = do
      bytes ← call (λ fs. (read_or_not_found account (content_at (blob_path account hash) fs), fs))
      λ d. (decrypt account bytes, d)

  -- `exists`
  unfoldable pub exists : ℕ → Text → Io Bool
  unfolding blob_path try_exists
  exists account hash = try_exists (blob_path account hash)

  -- `delete_account`
  unfoldable pub delete_blobs : ℕ → Io (Unit {0})
  unfolding account_root remove_dir_all
  delete_blobs account = remove_dir_all (account_root account)
