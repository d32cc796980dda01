-- ===== src/Folders/Store.antt =====
-- crates/database/src/adapters/folder.rs: the folders over their table. `now` is the clock's value when
-- a row is saved.
use text.Mathlib.Text.{◌==◌ as str_eq}
use mail_keep.Base.{
  ℕ, ◌+◌, max, any, String, Bool, true, ◌&&◌, ◌||◌, not, Option, none, some, List, [], ◌∷◌, ◌++◌,
  ◌==◌, if◌then◌else◌,
}
use mail_keep.Error.{RepositoryError, constraint, validation, invalid_id, repository_error}
use mail_keep.Sql.{Result, ok, err, lift, Sql, pure, raise, statement, query, ok_or, ◌>>=◌}
use mail_keep.Sql.Table.{select, update_many, delete_many, find_first, find_by_id}
use mail_keep.Folders.{Folder, NewFolderRow}

abbrev pub FolderTable : Type 0
FolderTable = List Folder

abbrev pub folder_key : Folder → ℕ
folder_key f = f.id

-- the row that `create_many` inserts, after `before_save`
unfoldable pub new_folder : ℕ → NewFolderRow → Folder
new_folder now row = record {
  id = row.id;
  version = 0 + 1;
  account_id = row.account_id;
  path = row.path;
  display_name = row.display_name;
  special_use = row.special_use;
  enabled = true;
  idle_enabled = row.idle_enabled;
  uidvalidity = row.uidvalidity;
  last_uid = 0;
  last_synced_at = none;
  last_error = none;
  created_at = now;
  updated_at = now;
}

-- the unique columns of the table: the id, and the account with the path
unfoldable pub is_same_folder : Folder → Folder → Bool
is_same_folder f g = g.id == f.id || g.account_id == f.account_id && str_eq g.path f.path

-- the INSERT of one row
unfoldable pub insert_folder : Folder → FolderTable → Result Folder × FolderTable
unfolding is_same_folder
insert_folder f t =
    if any (is_same_folder f) t
    then (err (repository_error (constraint "unique constraint")), t)
    else (ok f, t ++ f ∷ [])

-- the loop of `create_many`; the rows before a refused one are inserted, and the transaction's
-- rollback takes them back
unfoldable pub create_rows : ℕ → ℕ → List NewFolderRow → Sql FolderTable (List Folder)
unfolding new_folder insert_folder statement lift pure raise
create_rows now account [] = pure []
create_rows now account (row ∷ rows) =
    let rest = create_rows now account rows in
    if not (row.account_id == account)
    then raise (validation "NewFolderRow.account_id must match the create_many account_id")
    else do
      inserted ← statement (insert_folder (new_folder now row))
      saved ← lift inserted
      others ← rest
      pure (saved ∷ others)

-- `create_many`
unfoldable pub create_many : ℕ → ℕ → List NewFolderRow → Sql FolderTable (List Folder)
unfolding create_rows raise
create_many now account rows =
    if account == 0 then raise (invalid_id account) else create_rows now account rows

-- `find_by_id_for_account`
unfoldable pub find_by_id_for_account : ℕ → ℕ → Sql FolderTable (Option Folder)
unfolding query raise
find_by_id_for_account account id =
    if account == 0
    then raise (invalid_id account)
    else if id == 0
    then raise (invalid_id id)
    else query (λ t. find_first (λ f. f.id == id && f.account_id == account) t)

-- `find_by_account_and_path`
unfoldable pub find_by_account_and_path : ℕ → String → Sql FolderTable (Option Folder)
unfolding query raise
find_by_account_and_path account path =
    if account == 0
    then raise (invalid_id account)
    else query (λ t. find_first (λ f. f.account_id == account && str_eq f.path path) t)

-- `list_for_account`
unfoldable pub list_for_account : ℕ → Sql FolderTable (List Folder)
unfolding query raise
list_for_account account =
    if account == 0
    then raise (invalid_id account)
    else query (λ t. select (λ f. f.account_id == account) t)

-- `list_enabled_for_account`
unfoldable pub list_enabled_for_account : ℕ → Sql FolderTable (List Folder)
unfolding query raise
list_enabled_for_account account =
    if account == 0
    then raise (invalid_id account)
    else query (λ t. select (λ f. f.account_id == account && f.enabled) t)

-- `before_save` on a model with a column set
unfoldable pub folder_before_save : ℕ → Folder → Folder
folder_before_save now f = record f { version = f.version + 1; updated_at = now }

abbrev pub later : Option ℕ → Option ℕ → Option ℕ
later none b = b
later (some a) none = some a
later (some a) (some b) = some (max a b)

-- `max` of a column that may be null, over the rows of a group
unfoldable pub latest : List Folder → Option ℕ
latest [] = none
latest (f ∷ fs) = later f.last_synced_at (latest fs)

-- one entry of the map, for an account with a folder that was synchronized
abbrev pub entry : ℕ → Option ℕ → List (ℕ × ℕ) → List (ℕ × ℕ)
entry account none rest = rest
entry account (some at) rest = (account, at) ∷ rest

-- the groups of the query, for the account ids asked for, each once
unfoldable pub group_max : List ℕ → FolderTable → List (ℕ × ℕ)
unfolding latest
group_max [] t = []
group_max (a ∷ ids) t =
    let rest = group_max ids t in
    if any (λ b. a == b) ids
    then rest
    else entry a (latest (select (λ f. f.account_id == a) t)) rest

-- `max_last_synced_by_account`, with the map as the list of its entries
unfoldable pub max_last_synced_by_account : List ℕ → Sql FolderTable (List (ℕ × ℕ))
unfolding group_max query pure
max_last_synced_by_account [] = pure []
max_last_synced_by_account (a ∷ ids) = query (group_max (a ∷ ids))

-- find a row by its id, change it and save it
unfoldable pub change_folder : ℕ → ℕ → (Folder → Folder) → Sql FolderTable (Unit {0})
unfolding folder_before_save query ok_or statement raise
change_folder now id change = if id == 0 then raise (invalid_id id) else do
  found ← query (λ t. find_by_id folder_key id t)
  existing ← ok_or found (repository_error RepositoryError.not_found)
  statement
      (λ t. (tt, update_many (λ f. f.id == id) (λ _. folder_before_save now (change existing)) t))

-- `update_enabled`
unfoldable pub update_enabled : ℕ → ℕ → Bool → Sql FolderTable (Unit {0})
unfolding change_folder
update_enabled now id enabled = change_folder now id (λ f. record f { enabled = enabled })

-- `update_idle_enabled`
unfoldable pub update_idle_enabled : ℕ → ℕ → Bool → Sql FolderTable (Unit {0})
unfolding change_folder
update_idle_enabled now id idle_enabled =
    change_folder now id (λ f. record f { idle_enabled = idle_enabled })

-- the columns that `update_sync_state` sets
unfoldable pub set_cursor : ℕ → ℕ → ℕ → Folder → Folder
set_cursor uidvalidity last_uid last_synced_at f = record f {
  uidvalidity = some uidvalidity;
  last_uid = last_uid;
  last_synced_at = some last_synced_at;
}

-- `update_sync_state`
unfoldable pub update_sync_state : ℕ → ℕ → ℕ → ℕ → ℕ → Sql FolderTable (Unit {0})
unfolding change_folder set_cursor
update_sync_state now id uidvalidity last_uid last_synced_at =
    change_folder now id (set_cursor uidvalidity last_uid last_synced_at)

-- `delete_by_id`
unfoldable pub delete_by_id : ℕ → Sql FolderTable (Unit {0})
unfolding query ok_or statement raise
delete_by_id id = if id == 0 then raise (invalid_id id) else do
  found ← query (λ t. find_by_id folder_key id t)
  _ ← ok_or found (repository_error RepositoryError.not_found)
  statement (λ t. (tt, delete_many (λ f. f.id == id) t))
