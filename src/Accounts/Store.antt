-- ===== src/Accounts/Store.antt =====
-- crates/database/src/adapters/account.rs: the accounts over their table. `now` is the clock's value
-- when the row is saved.
use mail_keep.Base.{
  Text, ℕ, Bool, true, ◌&&◌, not, Option, none, List, [], ◌∷◌, ◌++◌, ◌==◌, if◌then◌else◌,
}
use mail_keep.Error.{RepositoryError, invalid_id, repository_error}
use mail_keep.Sql.{Sql, pure, raise, statement, query, ok_or, ◌>>=◌}
use mail_keep.Sql.Table.{select, update_many, delete_many, find_first, find_by_id}
use mail_keep.Accounts.{
  Account, NewAccount, AccountStatus, pending_first_sync, before_save, is_changed,
}

abbrev pub Accounts : Type 0
Accounts = List Account

abbrev pub account_id : Account → ℕ
account_id a = a.id

-- the row that `insert` writes, after `before_save`
unfoldable pub new_account_row : ℕ → NewAccount → Account
unfolding before_save
new_account_row now new = before_save now (record {
  id = new.id;
  version = 0;
  user_id = new.user_id;
  display_name = new.display_name;
  email_address = new.email_address;
  server = new.server;
  username = new.username;
  credentials = new.credentials;
  enabled = true;
  status = pending_first_sync;
  last_error = none;
  last_synced_at = none;
  created_at = now;
  updated_at = now;
})

-- `insert`
unfoldable pub insert : ℕ → NewAccount → Sql Accounts Account
unfolding new_account_row
insert now new = let row = new_account_row now new in statement (λ rows. (row, rows ++ row ∷ []))

-- `find_by_id_for_user`
unfoldable pub find_by_id_for_user : ℕ → ℕ → Sql Accounts (Option Account)
unfolding query raise
find_by_id_for_user user id =
    if id == 0
    then raise (invalid_id id)
    else query (λ rows. find_first (λ a. a.id == id && a.user_id == user) rows)

-- `list_for_user`
unfoldable pub list_for_user : ℕ → Sql Accounts (List Account)
unfolding query
list_for_user user = query (λ rows. select (λ a. a.user_id == user) rows)

-- `list_enabled`
unfoldable pub list_enabled : Sql Accounts (List Account)
unfolding query
list_enabled = query (λ rows. select (λ a. a.enabled) rows)

-- `find_by_id(id).one(..)?.ok_or(NotFound)?`
unfoldable pub existing_account : ℕ → Sql Accounts Account
unfolding query ok_or
existing_account id = do
  found ← query (λ rows. find_by_id account_id id rows)
  ok_or found (repository_error RepositoryError.not_found)

-- the UPDATE of one row
unfoldable pub save_row : Account → Sql Accounts (Unit {0})
unfolding statement
save_row a = statement (λ rows. (tt, update_many (λ r. r.id == a.id) (λ _. a) rows))

-- the row that `update` writes over `existing`
unfoldable pub updated_row : ℕ → Account → Account → Account
unfolding is_changed before_save
updated_row now existing a =
    if is_changed existing a
    then before_save now (record existing {
      display_name = a.display_name;
      email_address = a.email_address;
      server = a.server;
      username = a.username;
      credentials = a.credentials;
      enabled = a.enabled;
      status = a.status;
      last_error = a.last_error;
    })
    else existing

-- `update`
unfoldable pub update : ℕ → Account → Sql Accounts Account
unfolding existing_account updated_row save_row pure raise
update now a = if a.id == 0 then raise (invalid_id a.id) else do
  existing ← existing_account a.id
  if not (existing.version == a.version)
      then raise (repository_error RepositoryError.conflict)
      else do _ ← save_row (updated_row now existing a); pure (updated_row now existing a)

-- `set_status`
unfoldable pub set_status : ℕ → ℕ → AccountStatus → Option Text → Sql Accounts (Unit {0})
unfolding existing_account before_save save_row raise
set_status now id status last_error = if id == 0 then raise (invalid_id id) else do
  existing ← existing_account id
  save_row (before_save now (record existing { status = status; last_error = last_error }))

-- `set_enabled`
unfoldable pub set_enabled : ℕ → ℕ → Bool → Sql Accounts (Unit {0})
unfolding existing_account before_save save_row raise
set_enabled now id enabled = if id == 0 then raise (invalid_id id) else do
  existing ← existing_account id
  save_row (before_save now (record existing { enabled = enabled }))

-- `delete`
unfoldable pub delete : Account → Sql Accounts Account
unfolding existing_account statement raise
delete a = if a.id == 0 then raise (invalid_id a.id) else do
  existing ← existing_account a.id
  if not (existing.version == a.version)
      then raise (repository_error RepositoryError.conflict)
      else statement (λ rows. (existing, delete_many (λ r. r.id == a.id) rows))
