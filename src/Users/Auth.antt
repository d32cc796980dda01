-- ===== src/Users/Auth.antt =====
-- crates/core/src/auth/service.rs: the auth service, over the tables of the sessions and the users,
-- each method in its transaction. `verify` is Argon2's test of a password against a stored hash,
-- which an unreadable hash fails. The delay after an unknown user name is not modelled.
use mail_keep.Base.{Text, ℕ, Bool, Option, none, some, List, if◌then◌else◌}
use mail_keep.Sql.{Sql, pure, transaction, read_only_transaction, ◌>>=◌}
use mail_keep.Users.{User}
use mail_keep.Users.Store.{UserTable, find_by_username, find_by_email}
use mail_keep.Users.Sessions.{
  Session, NewSession, SessionTable, count, store, load, delete_session, session_exists,
  delete_by_expiry, delete_all, get_ids,
}

-- `count`
unfoldable pub auth_count : Sql SessionTable ℕ
unfolding count
auth_count = transaction count

-- `store`
unfoldable pub auth_store : ℕ → NewSession → Sql SessionTable Session
unfolding store
auth_store now new = transaction (store now new)

-- `load`
unfoldable pub auth_load : Text → Sql SessionTable (Option Session)
unfolding load
auth_load id = transaction (load id)

-- `delete_by_id`
unfoldable pub auth_delete : Text → Sql SessionTable (Unit {0})
unfolding delete_session
auth_delete id = transaction (delete_session id)

-- `exists`
unfoldable pub auth_exists : Text → Sql SessionTable Bool
unfolding session_exists
auth_exists id = transaction (session_exists id)

-- `delete_by_expiry`
unfoldable pub auth_delete_by_expiry : (Text → Bool) → ℕ → Sql SessionTable (List Text)
unfolding delete_by_expiry
auth_delete_by_expiry is_anonymous now = transaction (delete_by_expiry is_anonymous now)

-- `delete_all`
unfoldable pub auth_delete_all : Sql SessionTable (Unit {0})
unfolding delete_all
auth_delete_all = transaction delete_all

-- `get_ids`
unfoldable pub auth_get_ids : Sql SessionTable (List Text)
unfolding get_ids
auth_get_ids = transaction get_ids

-- `is_valid_email`
unfoldable pub is_valid_email : Text → Sql UserTable (Option User)
unfolding find_by_email
is_valid_email email = read_only_transaction (find_by_email email)

module _ (lower to_lowercase : Text → Text) (verify : Text → Text → Bool) where
  -- `User::check_password`
  unfoldable pub check_password : User → Text → Bool
  check_password u password = verify u.password_hash password

  -- the match of `is_valid_login` on the user that was found
  abbrev pub checked : Text → Option User → Option User
  checked password none = none
  checked password (some u) = if check_password u password then some u else none

  -- `is_valid_login`
  unfoldable pub is_valid_login : Text → Text → Sql UserTable (Option User)
  unfolding find_by_username check_password pure
  is_valid_login username password = do
    user ← read_only_transaction (find_by_username lower to_lowercase username)
    pure (checked password user)
