-- ===== src/Folders/Service.antt =====
-- crates/core/src/folder/service.rs: the methods of the folder service, each in a transaction.
use mail_keep.Base.{ℕ, String, Bool, true, false, Option, some, List, map}
use mail_keep.Sql.{Sql, transaction, read_only_transaction}
use mail_keep.Folders.{Folder, NewFolderRow, SpecialUse, inbox}
use mail_keep.Folders.Store.{
  FolderTable, create_many, list_for_account, list_enabled_for_account, max_last_synced_by_account,
  update_enabled, update_idle_enabled, update_sync_state, delete_by_id,
}

-- `NewFolderRequest`, with the id that the fresh token of its row holds
pub record NewFolderRequest : Type 0 where
  pub id : ℕ
  pub path : String
  pub display_name : Option String
  pub special_use : Option SpecialUse
  pub uidvalidity : Option ℕ

abbrev pub is_inbox : Option SpecialUse → Bool
is_inbox (some inbox) = true
is_inbox _ = false

-- the row of a request
unfoldable pub folder_row : ℕ → NewFolderRequest → NewFolderRow
folder_row account r = record {
  id = r.id;
  account_id = account;
  path = r.path;
  display_name = r.display_name;
  special_use = r.special_use;
  idle_enabled = is_inbox r.special_use;
  uidvalidity = r.uidvalidity;
}

-- `create_folders_for_account`
unfoldable pub create_folders_for_account :
    ℕ → ℕ → List NewFolderRequest → Sql FolderTable (List Folder)
unfolding folder_row create_many
create_folders_for_account now account requests =
    transaction (create_many now account (map (folder_row account) requests))

-- `list_folders`
unfoldable pub service_list_folders : ℕ → Sql FolderTable (List Folder)
unfolding list_for_account
service_list_folders account = read_only_transaction (list_for_account account)

-- `list_enabled_folders`
unfoldable pub list_enabled_folders : ℕ → Sql FolderTable (List Folder)
unfolding list_enabled_for_account
list_enabled_folders account = read_only_transaction (list_enabled_for_account account)

-- `set_enabled`
unfoldable pub set_folder_enabled : ℕ → ℕ → Bool → Sql FolderTable (Unit {0})
unfolding update_enabled
set_folder_enabled now id enabled = transaction (update_enabled now id enabled)

-- `set_idle_enabled`
unfoldable pub set_folder_idle : ℕ → ℕ → Bool → Sql FolderTable (Unit {0})
unfolding update_idle_enabled
set_folder_idle now id idle_enabled = transaction (update_idle_enabled now id idle_enabled)

-- `record_sync_progress`
unfoldable pub record_sync_progress : ℕ → ℕ → ℕ → ℕ → ℕ → Sql FolderTable (Unit {0})
unfolding update_sync_state
record_sync_progress now id uidvalidity last_uid at =
    transaction (update_sync_state now id uidvalidity last_uid at)

-- `delete_folder`
unfoldable pub delete_folder : ℕ → Sql FolderTable (Unit {0})
unfolding delete_by_id
delete_folder id = transaction (delete_by_id id)

-- `last_synced_by_account`
unfoldable pub last_synced_by_account : List ℕ → Sql FolderTable (List (ℕ × ℕ))
unfolding max_last_synced_by_account
last_synced_by_account ids = read_only_transaction (max_last_synced_by_account ids)
