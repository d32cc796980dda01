-- ===== src/Accounts/Laws.antt =====
-- The credentials of an account: laws of crates/core/src/account/service.rs.
use mail_keep.Base.{
  Text, ℕ, ◌≡◌, ◌≢◌, refl, ◌∙◌, Bool, ◌&&◌, none, some, [], ◌∷◌, ◌++◌, ◌==◌, ==_ne, arith,
}
use mail_keep.Sql.{
  finish, statement, query, ok_or, raise, Result, ok, quiet, transaction, read_only_transaction,
}
use mail_keep.Sql.Table.{find_first, find_by_id}
use mail_keep.Accounts.{Account, before_save}
use mail_keep.Accounts.Store.{Accounts, account_id, insert, new_account_row, find_by_id_for_user}
use mail_keep.Accounts.Service.{
  CreateAccountParams, Accounting, validate_create, create_account, run_and_notify, owned_account,
  get_account, decrypt_credentials,
}

-- the row of a user's account
abbrev pub is_owned : ℕ → ℕ → Account → Bool
is_owned user id a = a.id == id && a.user_id == user

-- a row behind rows that lack its key is found
find_owned-append :
    (user : ℕ) (rows : Accounts) (r : Account)
    → find_by_id account_id r.id rows ≡ none
    → r.user_id ≡ user
    → find_first (is_owned user r.id) (rows ++ r ∷ []) ≡ some r
find_owned-append user [] r h e = ground arith
find_owned-append user (x ∷ rows) r h e = ground (arith, find_owned-append user rows r)

-- an accounting in which no call of the database fails
abbrev pub calm : Accounts → ℕ → Accounting
calm rows n = record { tx = quiet rows; cleanups = []; notified = n }

-- A user's account is found in a database that does not fail.
pub owned_account-quiet :
    (user id : ℕ) (rows : Accounts) (r : Account)
    → id ≢ 0
    → find_first (is_owned user id) rows ≡ some r
    → owned_account user id (quiet rows) ≡ (ok r, quiet rows)
unfolding owned_account find_by_id_for_user statement query ok_or raise
owned_account-quiet user id rows r nz found =
    rw (owned_account, find_by_id_for_user, ==_ne id 0 nz, found) refl

decrypt_quiet :
    (decrypt : ℕ → Text → Result Text) (user id n : ℕ) (rows : Accounts) (r : Account)
    → id ≢ 0
    → find_first (is_owned user id) rows ≡ some r
    → (decrypt_credentials decrypt user id (calm rows n)).0 ≡ decrypt id r.credentials
unfolding decrypt_credentials get_account read_only_transaction statement
decrypt_quiet decrypt user id n rows r nz found =
    rw
      (
        decrypt_credentials,
        get_account,
        read_only_transaction,
        owned_account-quiet user id rows r nz found,
      )
      refl

module _ (encrypt : ℕ → Text → Text) (now : ℕ) where
  -- the row of a new account
  abbrev created : ℕ → CreateAccountParams → Account
  created id p = new_account_row now (record {
    id = id;
    user_id = p.user_id;
    display_name = p.display_name;
    email_address = p.email_address;
    server = p.server;
    username = p.username;
    credentials = encrypt id p.password;
  })

  create_account_quiet :
      (id : ℕ) (p : CreateAccountParams) (rows : Accounts)
      → validate_create p ≡ ok tt
      → create_account encrypt now id p (calm rows 0)
        ≡ (ok (created id p), calm (rows ++ created id p ∷ []) 1)
  unfolding create_account run_and_notify insert transaction finish statement
  create_account_quiet id p rows v = rw (create_account, v) refl

  -- The password given for a new account is the one that its owner's credentials decrypt to, if the
  -- cipher decrypts what it encrypted under the same id, the id is not 0 and not taken, and the
  -- database does not fail.
  pub create_account-decrypt_credentials :
      (decrypt : ℕ → Text → Result Text)
      → ((i : ℕ) (t : Text) → decrypt i (encrypt i t) ≡ ok t)
      → (id : ℕ) (p : CreateAccountParams) (rows : Accounts) → validate_create p ≡ ok tt
      → id ≢ 0
      → find_by_id account_id id rows ≡ none
      → (decrypt_credentials decrypt p.user_id id
          (create_account encrypt now id p (calm rows 0)).1).0
        ≡ ok p.password
  unfolding new_account_row before_save
  create_account-decrypt_credentials decrypt back id p rows v nz new =
      rw (create_account_quiet id p rows v) (
        decrypt_quiet decrypt p.user_id id 1 (rows ++ created id p ∷ []) (created id p) nz
          (find_owned-append p.user_id rows (created id p) new refl)
        ∙ back id p.password)
