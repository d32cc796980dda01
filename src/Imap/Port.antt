-- ===== src/Imap/Port.antt =====
-- crates/core/src/imap/port.rs: what the IMAP service asks of the adapter, and the laws that the
-- service's own laws rest on. `test_connection` and `list_folders` are network I/O and left out.
use mail_keep.Base.{Text, ℕ, ◌≡◌, not, List, ◌==◌}
use mail_keep.Sql.{Result}
use mail_keep.Sql.Table.{select}
use mail_keep.Accounts.{ImapServerConfig}
use mail_keep.Imap.Io.{FolderConfig, SyncStatus}

-- `ImapConnectionParams` and `ImapCredentials`, without the label for the log
pub record ConnectionParams : Type 0 where
  pub server : ImapServerConfig
  pub username : Text
  pub password : Text
  pub folders : List FolderConfig

-- the lifecycle methods of `ImapPort`, over the state `S` of the adapter
pub record ImapPort (S : Type 0) : Type 0 where
  pub start_account : ℕ → ConnectionParams → S → Result (Unit {0}) × S
  pub stop_account : ℕ → S → Result (Unit {0}) × S
  pub status : ℕ → S → Result SyncStatus
  pub tracked_accounts : S → List ℕ

abbrev pub others_than : ℕ → List ℕ → List ℕ
others_than id ids = select (λ i. not (i == id)) ids

-- Stopping an account succeeds, and takes it, and no other, from those that are tracked.
pub record PortLaws {S : Type 0} (port : ImapPort S) : Type 0 where
  pub stops :
      (id : ℕ) (s : S)
      → port.tracked_accounts (port.stop_account id s).1 ≡ others_than id (port.tracked_accounts s)
