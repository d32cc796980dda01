-- ===== src/Imap/Service.antt =====
-- crates/core/src/imap/service.rs: the service that starts and stops the accounts, over the port, the
-- account service and the folder service. `decrypt` stands for the cipher and serde, `describe` for
-- the text of an error. What the source does for several accounts at once is done here for one
-- after another, and a set of ids is a list.
use mail_keep.Base.{
  Text, ℕ, not, Option, none, some, List, [], ◌∷◌, ◌++◌, ◌==◌, if◌then◌else◌, option_map, map, any,
}
use mail_keep.Error.{Error, validation}
use mail_keep.Sql.{Result, ok, err, Tx}
use mail_keep.Sql.Table.{find_first}
use mail_keep.Accounts.{Account, AccountStatus, status_eq}
use mail_keep.Accounts.Service.{Accounting, service_list_enabled, service_set_status}
use mail_keep.Folders.{Folder}
use mail_keep.Folders.Store.{FolderTable}
use mail_keep.Folders.Service.{list_enabled_folders}
use mail_keep.Imap.Io.{FolderConfig, SyncStatus, SyncState}
use mail_keep.Imap.Port.{ConnectionParams, ImapPort}

-- What the service changes: the accounts, the folders (which it only reads) and the port's state.
pub record Syncing (S : Type 0) : Type 0 where
  pub accounting : Accounting
  pub folders : Tx FolderTable
  pub port : S

-- `folder_config`
unfoldable pub folder_config : Folder → FolderConfig
folder_config f = record {
  id = f.id;
  path = f.path;
  idle_enabled = f.idle_enabled;
  uidvalidity = f.uidvalidity;
  last_uid = f.last_uid;
}

-- the parameters that `start_one` builds
unfoldable pub connection_params : Account → Text → List Folder → ConnectionParams
unfolding folder_config
connection_params account password folders = record {
  server = account.server;
  username = account.username;
  password = password;
  folders = map folder_config folders;
}

-- the status that a live state asks for
unfoldable pub desired : SyncState → Option AccountStatus
desired SyncState.error = some AccountStatus.error
desired SyncState.idle = some AccountStatus.idle
desired SyncState.syncing = some AccountStatus.syncing
desired SyncState.connecting = some AccountStatus.syncing
desired SyncState.not_running = none

abbrev pub account_ids : List Account → List ℕ
account_ids accounts = map (λ (a : Account). a.id) accounts

module _ {S : Type 0} (port : ImapPort S) (decrypt : ℕ → Text → Result Text)
    (describe : Error → Text) (now : ℕ) where
  -- the call of `list_enabled` of the account service
  unfoldable pub enabled_accounts : Syncing S → Result (List Account) × Syncing S
  unfolding service_list_enabled
  enabled_accounts s =
      let (r, accounting) = service_list_enabled s.accounting in
      (r, record s { accounting = accounting })

  -- the call of `set_status` of the account service
  unfoldable pub write_status :
      ℕ → AccountStatus → Option Text → Syncing S → Result (Unit {0}) × Syncing S
  unfolding service_set_status
  write_status id status last_error s =
      let (r, accounting) = service_set_status now id status last_error s.accounting in
      (r, record s { accounting = accounting })

  -- `load_enabled_account`
  unfoldable pub load_enabled_account : ℕ → Syncing S → Result Account × Syncing S
  unfolding enabled_accounts
  load_enabled_account id s =
      let (r, s') = enabled_accounts s in
      elim r [
        | err e ↦ (err e, s')
        | ok accounts ↦ elim (find_first (λ (a : Account). a.id == id) accounts) [
          | none ↦ (err (validation "account is not enabled or does not exist"), s')
          | some a ↦ (ok a, s')
        ]
      ]

  -- the match on the port's answer in `start_one`
  unfoldable pub started : Account → Result (Unit {0}) → Syncing S → Result (Unit {0}) × Syncing S
  unfolding write_status
  started account (ok _) s = write_status account.id AccountStatus.syncing none s
  started account (err e) s =
      let (_, s') = write_status account.id AccountStatus.error (some (describe e)) s in (err e, s')

  -- the call of the port in `start_one`, and what follows it
  unfoldable pub start_with :
      Account → Text → List Folder → Syncing S → Result (Unit {0}) × Syncing S
  unfolding connection_params started
  start_with account password folders s =
      let (r, p) =
        port.start_account account.id (connection_params account password folders) s.port in
      started account r (record s { port = p })

  -- `start_one`
  unfoldable pub start_one : Account → Syncing S → Result (Unit {0}) × Syncing S
  unfolding list_enabled_folders start_with
  start_one account s =
      let (r, folders) = list_enabled_folders account.id s.folders in
      let s' : Syncing S = record s { folders = folders } in
      elim r [
        | err e ↦ (err e, s')
        | ok fs ↦ elim (decrypt account.id account.credentials) [
          | err e ↦ (err e, s')
          | ok password ↦ start_with account password fs s'
        ]
      ]

  -- `start_account`
  unfoldable pub service_start_account : ℕ → Syncing S → Result (Unit {0}) × Syncing S
  unfolding load_enabled_account start_one
  service_start_account id s =
      let (r, s') = load_enabled_account id s in
      elim r [ err e ↦ (err e, s') | ok account ↦ start_one account s' ]

  -- the call of `stop_account` of the port
  unfoldable pub port_stop : ℕ → Syncing S → Result (Unit {0}) × Syncing S
  port_stop id s = let (r, p) = port.stop_account id s.port in (r, record s { port = p })

  -- `stop_account`
  abbrev pub service_stop_account : ℕ → Syncing S → Result (Unit {0}) × Syncing S
  service_stop_account id s = port_stop id s

  -- `status`
  unfoldable pub service_status : ℕ → Syncing S → Result SyncStatus
  service_status id s = port.status id s.port

  -- the loop of `start_all_enabled`, in which a failure is only logged
  unfoldable pub start_each : List Account → Syncing S → Syncing S
  unfolding start_one
  start_each [] s = s
  start_each (a ∷ accounts) s = start_each accounts (start_one a s).1

  -- `start_all_enabled`
  unfoldable pub start_all_enabled : Syncing S → Result (Unit {0}) × Syncing S
  unfolding enabled_accounts start_each
  start_all_enabled s =
      let (r, s') = enabled_accounts s in
      elim r [ err e ↦ (err e, s') | ok accounts ↦ (ok tt, start_each accounts s') ]

  -- the loop of `stop_all`
  unfoldable pub stop_each : List ℕ → Syncing S → Syncing S
  unfolding port_stop
  stop_each [] s = s
  stop_each (id ∷ ids) s = stop_each ids (port_stop id s).1

  abbrev pub ids_or_none : Result (List Account) → List ℕ
  ids_or_none (ok accounts) = account_ids accounts
  ids_or_none (err e) = []

  -- `stop_all`
  unfoldable pub stop_all : Syncing S → Result (Unit {0}) × Syncing S
  unfolding enabled_accounts stop_each
  stop_all s =
      let (r, s') = enabled_accounts s in
      (ok tt, stop_each (ids_or_none r ++ port.tracked_accounts s'.port) s')

  -- the write of `reconcile_statuses`, if the status differs
  unfoldable pub drive : Account → SyncStatus → Option AccountStatus → Syncing S → Syncing S
  unfolding write_status
  drive account live none s = s
  drive account live (some status) s =
      let s' = (write_status account.id status (option_map describe live.last_error) s).1 in
      if not (status_eq account.status status) then s' else s

  -- the body of the loop over the enabled accounts
  unfoldable pub reconcile_account : Account → Syncing S → Syncing S
  unfolding desired drive
  reconcile_account account s = elim (port.status account.id s.port) [
    | err e ↦ s
    | ok live ↦ drive account live (desired live.state) s
  ]

  unfoldable pub reconcile_each : List Account → Syncing S → Syncing S
  unfolding reconcile_account
  reconcile_each [] s = s
  reconcile_each (a ∷ accounts) s = reconcile_each accounts (reconcile_account a s)

  -- the loop over the tracked accounts
  unfoldable pub reclaim : List ℕ → List ℕ → Syncing S → Syncing S
  unfolding port_stop
  reclaim enabled [] s = s
  reclaim enabled (id ∷ ids) s =
      let s' = if any (λ i. i == id) enabled then s else (port_stop id s).1 in
      reclaim enabled ids s'

  -- `reconcile_statuses`
  unfoldable pub reconcile_statuses : Syncing S → Result (Unit {0}) × Syncing S
  unfolding enabled_accounts reconcile_each reclaim
  reconcile_statuses s =
      let (r, s') = enabled_accounts s in
      elim r [
        | err e ↦ (err e, s')
        | ok enabled ↦
            let s'' = reconcile_each enabled s' in
            (ok tt, reclaim (account_ids enabled) (port.tracked_accounts s''.port) s'')
      ]
