-- ===== src/Folders.antt =====
-- crates/core/src/folder/model.rs: the folders that are synchronized, with their cursors. The row is
-- the table's and the model's record alike; the token is a function of the id.
pub mod Store
pub mod Cursor
pub mod Service
mod Tests
use text.Mathlib.Text.{◌==◌ as str_eq}
use mail_keep.Base.{
  ℕ, ◌+◌, max, any, String, Bool, true, false, ◌&&◌, not, Option, none, some, List, [], ◌∷◌, ◌++◌,
  ◌==◌, if◌then◌else◌,
}
use mail_keep.Error.{RepositoryError, validation, invalid_id, repository_error}
use mail_keep.Sql.{Sql, pure, raise, statement, query, ok_or, ◌>>=◌}
use mail_keep.Sql.Table.{select, update_many, delete_many, find_first, find_by_id}

-- `SpecialUse`
pub data SpecialUse : Type 0 where
  inbox sent drafts trash archive junk all : SpecialUse

-- `SpecialUse::as_str`
unfoldable pub special_use_str : SpecialUse → String
special_use_str inbox = "inbox"
special_use_str sent = "sent"
special_use_str drafts = "drafts"
special_use_str trash = "trash"
special_use_str archive = "archive"
special_use_str junk = "junk"
special_use_str all = "all"

-- `SpecialUse::from_str`
unfoldable pub parse_special_use : String → Option SpecialUse
parse_special_use s =
    if str_eq s "inbox"
    then some inbox
    else if str_eq s "sent"
    then some sent
    else if str_eq s "drafts"
    then some drafts
    else if str_eq s "trash"
    then some trash
    else if str_eq s "archive"
    then some archive
    else if str_eq s "junk"
    then some junk
    else if str_eq s "all"
    then some all
    else none

-- `Folder`
pub record Folder : Type 0 where
  pub id : ℕ
  pub version : ℕ
  pub account_id : ℕ
  pub path : String
  pub display_name : Option String
  pub special_use : Option SpecialUse
  pub enabled : Bool
  pub idle_enabled : Bool
  pub uidvalidity : Option ℕ
  pub last_uid : ℕ
  pub last_synced_at : Option ℕ
  pub last_error : Option String
  pub created_at : ℕ
  pub updated_at : ℕ

-- `NewFolderRow`, with the id that its token holds
pub record NewFolderRow : Type 0 where
  pub id : ℕ
  pub account_id : ℕ
  pub path : String
  pub display_name : Option String
  pub special_use : Option SpecialUse
  pub idle_enabled : Bool
  pub uidvalidity : Option ℕ
