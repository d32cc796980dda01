-- ===== src/Accounts.antt =====
-- crates/core/src/account/model.rs and crates/database/src/entities/accounts.rs: mail accounts. The
-- row is the table's and the service's record alike: `server` is stored as JSON and read back, the
-- token is a function of the id. Names are texts, as the validation looks at their characters.
pub mod Store
pub mod Service
pub mod Laws
pub mod Versions
pub mod Status
mod Tests
use text.Mathlib.Text.{◌==◌ as str_eq}
use mail_keep.Base.{
  Text, text_eq, ℕ, ◌+◌, String, Bool, true, false, ◌&&◌, ◌||◌, not, Option, none, some, List, ◌==◌,
  if◌then◌else◌,
}

-- `AccountStatus`
pub data AccountStatus : Type 0 where
  pending_first_sync syncing idle error disabled : AccountStatus

-- `AccountStatus::as_str`
unfoldable pub as_str : AccountStatus → String
as_str pending_first_sync = "PendingFirstSync"
as_str syncing = "Syncing"
as_str idle = "Idle"
as_str error = "Error"
as_str disabled = "Disabled"

-- `AccountStatus::from_db_str`
unfoldable pub from_db_str : String → Option AccountStatus
from_db_str s =
    if str_eq s "PendingFirstSync"
    then some pending_first_sync
    else if str_eq s "Syncing"
    then some syncing
    else if str_eq s "Idle"
    then some idle
    else if str_eq s "Error"
    then some error
    else if str_eq s "Disabled"
    then some disabled
    else none

-- `TlsMode` and `ImapServerConfig`
pub data TlsMode : Type 0 where
  tls start_tls : TlsMode

pub record ImapServerConfig : Type 0 where
  pub host : Text
  pub port : ℕ
  pub mode : TlsMode

-- `Account`; the token is left out, and an error's text is a text
pub record Account : Type 0 where
  pub id : ℕ
  pub version : ℕ
  pub user_id : ℕ
  pub display_name : Text
  pub email_address : Text
  pub server : ImapServerConfig
  pub username : Text
  pub credentials : Text
  pub enabled : Bool
  pub status : AccountStatus
  pub last_error : Option Text
  pub last_synced_at : Option ℕ
  pub created_at : ℕ
  pub updated_at : ℕ

-- `NewAccount`, with the id that its token holds
pub record NewAccount : Type 0 where
  pub id : ℕ
  pub user_id : ℕ
  pub display_name : Text
  pub email_address : Text
  pub server : ImapServerConfig
  pub username : Text
  pub credentials : Text

-- `PartialAccountUpdate`
pub record PartialAccountUpdate : Type 0 where
  pub display_name : Option Text
  pub credentials : Option Text
  pub server : Option ImapServerConfig
  pub username : Option Text

abbrev pub unwrap_or {ℓ} : {A : Type ℓ} → Option A → A → A
unwrap_or none a = a
unwrap_or (some b) a = b

-- `PartialAccountUpdate::apply_to`
unfoldable pub apply_to : PartialAccountUpdate → Account → Account
apply_to p a = record a {
  display_name = unwrap_or p.display_name a.display_name;
  credentials = unwrap_or p.credentials a.credentials;
  server = unwrap_or p.server a.server;
  username = unwrap_or p.username a.username;
}

abbrev pub mode_eq : TlsMode → TlsMode → Bool
mode_eq tls tls = true
mode_eq start_tls start_tls = true
mode_eq _ _ = false

abbrev pub server_eq : ImapServerConfig → ImapServerConfig → Bool
server_eq a b = text_eq a.host b.host && (a.port == b.port && mode_eq a.mode b.mode)

abbrev pub status_eq : AccountStatus → AccountStatus → Bool
status_eq a b = str_eq (as_str a) (as_str b)

abbrev pub error_eq : Option Text → Option Text → Bool
error_eq none none = true
error_eq (some a) (some b) = text_eq a b
error_eq _ _ = false

-- The ActiveModel of `update` has a column set: one of those that it compares differs.
unfoldable pub is_changed : Account → Account → Bool
unfolding text_eq as_str
is_changed a b =
    not (text_eq a.display_name b.display_name)
    || not (text_eq a.email_address b.email_address)
    || not (server_eq a.server b.server)
    || not (text_eq a.username b.username)
    || not (text_eq a.credentials b.credentials)
    || (if a.enabled then not b.enabled else b.enabled)
    || not (status_eq a.status b.status)
    || not (error_eq a.last_error b.last_error)

-- `before_save` on a model with a column set
unfoldable pub before_save : ℕ → Account → Account
before_save now a = record a { version = a.version + 1; updated_at = now }
