-- ===== src/Users/Service.antt =====
-- crates/core/src/user/service/user.rs: the methods of the user service, each in a transaction.
use mail_keep.Base.{Text, ℕ, Option, List}
use mail_keep.Error.{RepositoryError, repository_error}
use mail_keep.Sql.{Sql, transaction, read_only_transaction, ok_or, ◌>>=◌}
use mail_keep.Users.{User, NewUser}
use mail_keep.Users.Store.{
  UserTable, add_user, update_user, delete_user, list_users, find_user, find_by_username,
}

-- `add_user`
unfoldable pub service_add_user : ℕ → ℕ → NewUser → Sql UserTable User
unfolding add_user
service_add_user now id new = transaction (add_user now id new)

-- `update_user`
unfoldable pub service_update_user : ℕ → User → Sql UserTable User
unfolding update_user
service_update_user now u = transaction (update_user now u)

-- `list_users`
unfoldable pub service_list_users : Option ℕ → Option ℕ → Sql UserTable (List User)
unfolding list_users
service_list_users start_id page_size = read_only_transaction (list_users start_id page_size)

-- the transaction of `delete_user`
unfoldable pub delete_body : ℕ → Sql UserTable User
unfolding find_user ok_or delete_user
delete_body id = do
  found ← find_user id
  user ← ok_or found (repository_error RepositoryError.not_found)
  delete_user user

-- `delete_user`
unfoldable pub service_delete_user : ℕ → Sql UserTable User
unfolding delete_body
service_delete_user id = transaction (delete_body id)

-- `find_by_id`, and `find_by_token` with the id that the token holds
unfoldable pub service_find_user : ℕ → Sql UserTable (Option User)
unfolding find_user
service_find_user id = read_only_transaction (find_user id)

module _ (lower to_lowercase : Text → Text) where
  -- `find_by_username`
  unfoldable pub service_find_by_username : Text → Sql UserTable (Option User)
  unfolding find_by_username
  service_find_by_username name = read_only_transaction (find_by_username lower to_lowercase name)
