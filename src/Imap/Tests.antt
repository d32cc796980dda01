-- ===== src/Imap/Tests.antt =====
-- The IMAP service and its adapter at concrete inputs.
use mail_keep.Base.{
  ◌⊎◌, map, Text, codes, ℕ, ◌≤◌, ◌≡◌, ◌≢◌, refl, inl, Bool, true, false, none, some, List, [], ◌∷◌,
  ◌==◌, All, arith,
}
use mail_keep.Error.{Error, infrastructure, connection}
use mail_keep.Sql.{Result, ok, quiet}
use mail_keep.Sql.Table.{matching, find_by_id}
use mail_keep.Accounts.{Account, AccountStatus, tls}
use mail_keep.Accounts.Store.{Accounts, account_id}
use mail_keep.Accounts.Status.{with_status}
use mail_keep.Folders.{Folder, inbox}
use mail_keep.Imap.Io.{FolderConfig, SyncStatus, SyncState}
use mail_keep.Imap.Port.{ConnectionParams}
use mail_keep.Imap.Remote.{NameAttribute, extension, remote_folder_from_name}
use mail_keep.Imap.Adapter.{
  ImapAdapter, imap_port, spawned, start_account, stop_account, tracked_accounts, spawn_tasks,
  spawn_idle, spawn_poll, idle_folder, poll_set, track, join_tasks, remove_account, cancel,
}
use mail_keep.Imap.Tasks.{all_folders, is_idle_task, spawned-folders}
use mail_keep.Imap.Leaks.{NoLeak, no_accounts, no_accounts-NoLeak, start-NoLeak, imap_port-PortLaws}
use mail_keep.Imap.Interleaved.{
  Step, remove, join, spawn, insert_handle, report, end_task, Overlap, run_steps, step, no_calls,
  inserted, joined, IsUnderWay, IsHeld,
}
use mail_keep.Imap.Held.{run_steps-IsHeld}
use mail_keep.Imap.Handles.{owner}
use mail_keep.Imap.Service.{
  Syncing, folder_config, service_start_account, stop_all, reconcile_statuses,
}
use mail_keep.Imap.Shutdown.{stop_all-Stops}
use mail_keep.Imap.Start.{steady, service_start_account-Watches}
use mail_keep.Imap.Watches.{Watches}
use mail_keep.Imap.Converge.{Reconciled, reconcile_statuses_lem}

abbrev config : ℕ → Bool → FolderConfig
config id idle_enabled = record {
  id = id;
  path = "box";
  idle_enabled = idle_enabled;
  uidvalidity = none;
  last_uid = 0;
}

abbrev some_folders : List FolderConfig
some_folders = config 1 false ∷ config 2 true ∷ config 3 true ∷ []

abbrev is_third : FolderConfig → Bool
is_third f = f.id == 3

spawned-folders_example :
    (matching is_third (all_folders (spawned 12 some_folders)) ≡ matching is_third some_folders)
    × (matching is_idle_task (spawned 12 some_folders) ≤ 1)
spawned-folders_example = spawned-folders is_third 12 some_folders

abbrev params : ConnectionParams
params = record {
  server = record { host = codes "h"; port = 993; mode = tls };
  username = codes "u";
  password = codes "p";
  folders = some_folders;
}

abbrev failed_status : SyncStatus
failed_status = record {
  state = SyncState.error;
  last_error = some (infrastructure "down");
  messages_ingested_session = 0;
}

-- two starts of one account overlap, and so do a stop and a start of it
abbrev some_steps : List Step
some_steps =
    spawn 12 params
    ∷ spawn 12 params
    ∷ insert_handle 12 0
    ∷ insert_handle 12 1
    ∷ spawn 13 params
    ∷ insert_handle 13 2
    ∷ report 2 failed_status
    ∷ remove 13
    ∷ end_task 0
    ∷ spawn 13 params
    ∷ join 2
    ∷ []

abbrev overlapped : Overlap
overlapped = run_steps some_steps no_calls

run_steps-IsHeld_example :
    All (IsHeld overlapped) overlapped.adapter.running
    × All
        (λ r. (owner r.task ≢ 12) ⊎ IsUnderWay overlapped r)
        (stop_account 12 overlapped.adapter).1.running
run_steps-IsHeld_example = run_steps-IsHeld some_steps 12

-- the tasks of the replaced handle run on, those of the stopped one have ended
left_running : map (λ r. r.serial) overlapped.adapter.running ≡ 3 ∷ 3 ∷ 1 ∷ 1 ∷ 0 ∷ 0 ∷ []
unfolding run_steps step spawn_tasks spawned spawn_idle spawn_poll idle_folder poll_set inserted
    track joined join_tasks remove_account cancel
left_running = refl

abbrev an_adapter : ImapAdapter
an_adapter = (start_account 13 params (start_account 12 params no_accounts).1).1

an_adapter-NoLeak : NoLeak an_adapter
an_adapter-NoLeak =
    start-NoLeak 13 params (start_account 12 params no_accounts).1
      (start-NoLeak 12 params no_accounts no_accounts-NoLeak)

abbrev plain_text : ℕ → Text → Result Text
plain_text id t = ok t

abbrev no_text : Error → Text
no_text e = []

-- the database fails at the first call
abbrev out_of_order : Syncing ImapAdapter
out_of_order = record {
  accounting = record {
    tx = record { tables = []; faults = some (connection "lost") ∷ [] };
    cleanups = [];
    notified = 0;
  };
  folders = quiet [];
  port = an_adapter;
}

stop_all-Stops_example :
    let (r, after) = stop_all imap_port plain_text no_text 9 out_of_order in
    (r ≡ ok tt) × (tracked_accounts after.port ≡ []) × (after.port.running ≡ [])
stop_all-Stops_example = stop_all-Stops plain_text no_text 9 out_of_order an_adapter-NoLeak

abbrev mail_account : ℕ → Bool → Account
mail_account id enabled = record {
  id = id;
  version = 1;
  user_id = 1;
  display_name = codes "mail";
  email_address = codes "a@b";
  server = record { host = codes "h"; port = 993; mode = tls };
  username = codes "u";
  credentials = codes "p";
  enabled = enabled;
  status = AccountStatus.pending_first_sync;
  last_error = none;
  last_synced_at = none;
  created_at = 5;
  updated_at = 5;
}

abbrev two_accounts : Accounts
two_accounts = mail_account 12 true ∷ mail_account 13 false ∷ []

abbrev inbox_folder : Folder
inbox_folder = record {
  id = 2;
  version = 1;
  account_id = 12;
  path = "INBOX";
  display_name = none;
  special_use = some inbox;
  enabled = true;
  idle_enabled = true;
  uidvalidity = none;
  last_uid = 0;
  last_synced_at = none;
  last_error = none;
  created_at = 5;
  updated_at = 5;
}

service_start_account-Watches_example :
    let (r, after) =
      service_start_account imap_port plain_text no_text 9 12
        (steady two_accounts 0 (inbox_folder ∷ []) no_accounts) in
    (r ≡ ok tt)
    × (find_by_id account_id 12 after.accounting.tx.tables
        ≡ some (with_status 9 AccountStatus.syncing none (mail_account 12 true)))
    × Watches after.port 12 (folder_config inbox_folder)
service_start_account-Watches_example =
    service_start_account-Watches plain_text no_text 9 0 two_accounts (inbox_folder ∷ [])
      no_accounts (mail_account 12 true) (codes "p") inbox_folder (λ e. omega (arith, e)) refl refl
      refl (inl refl) refl refl

reconcile_statuses_lem_example :
    Reconciled imap_port imap_port-PortLaws plain_text no_text 9 two_accounts an_adapter
      (reconcile_statuses imap_port plain_text no_text 9 (steady two_accounts 0 [] an_adapter))
reconcile_statuses_lem_example =
    reconcile_statuses_lem imap_port imap_port-PortLaws plain_text no_text 9 two_accounts 0 []
      an_adapter (refl, (refl, tt)) ((λ e. omega (arith, e)), ((λ e. omega (arith, e)), tt))

-- The name of the inbox comes before its attributes; a server's own flags are normalized.
remote_inbox :
    remote_folder_from_name
      (codes "InBox")
      none
      (NameAttribute.sent ∷ extension (codes "\\HasChildren") ∷ [])
    ≡ record {
      path = codes "InBox";
      special_use = some inbox;
      has_children = true;
      no_select = false;
      delimiter = none;
    }
unfolding remote_folder_from_name
remote_inbox = refl
