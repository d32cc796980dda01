-- ===== src/Users/Store.antt =====
-- crates/database/src/adapters/user.rs: the users over their table. `lower` is `LOWER` of the
-- database, `to_lowercase` that of the standard library, and `now` the clock's value.
use mail_keep.Base.{
  Text, text_eq, ℕ, Bool, true, ◌&&◌, ◌||◌, not, Option, none, some, List, [], ◌∷◌, ◌++◌, ◌==◌, ltb,
  leb, if◌then◌else◌, any,
}
use mail_keep.Error.{RepositoryError, constraint, invalid_id, invalid_page_size, repository_error}
use mail_keep.Sql.{Result, ok, err, Sql, raise, lift, statement, query, ok_or, ◌>>=◌}
use mail_keep.Sql.Order.{order_by, limit}
use mail_keep.Sql.Table.{select, update_many, delete_many, find_first, find_by_id}
use mail_keep.Users.{User, NewUser, is_user_changed, user_before_save}

abbrev pub UserTable : Type 0
UserTable = List User

abbrev pub user_key : User → ℕ
user_key u = u.id

-- the row that `add_user` inserts, after `before_save`; `id` is the one of a fresh token
unfoldable pub user_row : ℕ → ℕ → NewUser → User
unfolding user_before_save
user_row now id new = user_before_save now (record {
  id = id;
  version = 0;
  username = new.username;
  full_name = new.full_name;
  password_hash = new.password_hash;
  email_address = new.email_address;
  capabilities = new.capabilities;
  change_password_on_login = new.change_password_on_login;
  created_at = now;
  updated_at = now;
})

-- the primary key and the unique columns refuse a row beside another
unfoldable pub collides : User → User → Bool
unfolding text_eq
collides u r =
    r.id == u.id || text_eq r.username u.username || text_eq r.email_address u.email_address

-- the INSERT of `add_user`
unfoldable pub insert_user : User → UserTable → Result User × UserTable
unfolding collides
insert_user u t =
    if any (collides u) t
    then (err (repository_error (constraint "unique constraint")), t)
    else (ok u, t ++ u ∷ [])

-- `add_user`
unfoldable pub add_user : ℕ → ℕ → NewUser → Sql UserTable User
unfolding user_row insert_user statement lift
add_user now id new = do saved ← statement (insert_user (user_row now id new)); lift saved

-- the row that `update_user` writes over `existing`
unfoldable pub changed_user : ℕ → User → User → User
unfolding is_user_changed user_before_save
changed_user now existing u =
    if is_user_changed existing u
    then user_before_save now (record existing {
      username = u.username;
      full_name = u.full_name;
      password_hash = u.password_hash;
      email_address = u.email_address;
      capabilities = u.capabilities;
      change_password_on_login = u.change_password_on_login;
    })
    else existing

-- the UPDATE of `update_user`, which the unique columns of another row may refuse
unfoldable pub write_user : User → UserTable → Result User × UserTable
unfolding collides
write_user u t =
    if any (λ r. not (r.id == u.id) && collides u r) t
    then (err (repository_error (constraint "unique constraint")), t)
    else (ok u, update_many (λ r. r.id == u.id) (λ _. u) t)

-- `update_user`
unfoldable pub update_user : ℕ → User → Sql UserTable User
unfolding changed_user write_user query ok_or statement lift raise
update_user now u = if u.id == 0 then raise (invalid_id u.id) else do
  found ← query (λ t. find_by_id user_key u.id t)
  existing ← ok_or found (repository_error RepositoryError.not_found)
  if not (existing.version == u.version)
      then raise (repository_error RepositoryError.conflict)
      else do saved ← statement (write_user (changed_user now existing u)); lift saved

-- `delete_user`
unfoldable pub delete_user : User → Sql UserTable User
unfolding query ok_or statement raise
delete_user u = if u.id == 0 then raise (invalid_id u.id) else do
  found ← query (λ t. find_by_id user_key u.id t)
  existing ← ok_or found (repository_error RepositoryError.not_found)
  if not (existing.version == u.version)
      then raise (repository_error RepositoryError.conflict)
      else statement (λ t. (existing, delete_many (λ r. r.id == u.id) t))

abbrev pub by_id : User → User → Bool
by_id a b = leb a.id b.id

abbrev pub from_start : Option ℕ → User → Bool
from_start none u = true
from_start (some start) u = leb start u.id

abbrev pub page : Option ℕ → List User → List User
page none us = us
page (some n) us = limit n us

abbrev pub bad_page : Option ℕ → Option ℕ
bad_page none = none
bad_page (some n) = if ltb n 1 then some n else none

-- `list_users`
unfoldable pub list_users : Option ℕ → Option ℕ → Sql UserTable (List User)
unfolding query raise
list_users start_id page_size = elim (bad_page page_size) [
  | some n ↦ raise (invalid_page_size n)
  | none ↦ query (λ t. page page_size (order_by by_id (select (from_start start_id) t)))
]

-- `find_by_id`
unfoldable pub find_user : ℕ → Sql UserTable (Option User)
unfolding query raise
find_user id = if id == 0 then raise (invalid_id id) else query (λ t. find_by_id user_key id t)

module _ (lower to_lowercase : Text → Text) where
  -- `lower_name_eq` of the user name
  abbrev pub lower_name_eq : Text → User → Bool
  lower_name_eq name u = text_eq (lower u.username) (to_lowercase name)

  -- `find_by_username`
  unfoldable pub find_by_username : Text → Sql UserTable (Option User)
  unfolding query
  find_by_username name = query (λ t. find_first (lower_name_eq name) t)

-- `find_by_email`
unfoldable pub find_by_email : Text → Sql UserTable (Option User)
unfolding query text_eq
find_by_email email = query (λ t. find_first (λ u. text_eq u.email_address email) t)
