-- ===== src/Imap/Adapter.antt =====
-- crates/imap/src/adapter.rs: the accounts that are tracked, and the tasks that run for them. A task
-- that is cancelled ends before `stop_account` has joined it. The tasks of a handle bear its serial
-- number. A handle that is replaced is not taken to end its tasks.
use mail_keep.Base.{ℕ, ◌+◌, Bool, not, Option, none, some, List, [], ◌∷◌, ◌++◌, ◌==◌, map}
use mail_keep.Sql.{Result, ok}
use mail_keep.Sql.Table.{select, find_first}
use mail_keep.Imap.Io.{FolderConfig, SyncStatus, connecting, not_running}
use mail_keep.Imap.Port.{ConnectionParams, ImapPort}

-- `idle_task` on one folder, or `poll_task` on several, of an account
pub data Task : Type 0 where
  idle_on : ℕ → FolderConfig → Task
  poll_on : ℕ → List FolderConfig → Task

-- `AccountHandle`, with the account that it is tracked for
pub record AccountHandle : Type 0 where
  pub account_id : ℕ
  pub serial : ℕ
  pub status : SyncStatus

pub record Running : Type 0 where
  pub serial : ℕ
  pub task : Task

-- The adapter's map of handles, the tasks that run, and the serial number of the next handle.
pub record ImapAdapter : Type 0 where
  pub tracked : List AccountHandle
  pub running : List Running
  pub next : ℕ

-- `initial_status`
abbrev pub initial_status : SyncStatus
initial_status = record { state = connecting; last_error = none; messages_ingested_session = 0 }

-- `not_running_status`
abbrev pub not_running_status : SyncStatus
not_running_status = record {
  state = not_running;
  last_error = none;
  messages_ingested_session = 0;
}

abbrev pub handle_of : ℕ → List AccountHandle → Option AccountHandle
handle_of id hs = find_first (λ h. h.account_id == id) hs

abbrev pub remove_handle : ℕ → List AccountHandle → List AccountHandle
remove_handle id hs = select (λ h. not (h.account_id == id)) hs

abbrev pub end_tasks : ℕ → List Running → List Running
end_tasks n rs = select (λ r. not (r.serial == n)) rs

-- cancel the tasks of a handle and join them
unfoldable pub cancel : Option AccountHandle → List Running → List Running
cancel none rs = rs
cancel (some h) rs = end_tasks h.serial rs

-- the handle of an account leaves the map
unfoldable pub remove_account : ℕ → ImapAdapter → ImapAdapter
remove_account id a = record a { tracked = remove_handle id a.tracked }

-- the cancellation of a removed handle, up to the end of the loop that joins its tasks
unfoldable pub join_tasks : Option AccountHandle → ImapAdapter → ImapAdapter
unfolding cancel
join_tasks h a = record a { running = cancel h a.running }

-- `stop_account`, without what other calls do between its two steps
unfoldable pub stop_account : ℕ → ImapAdapter → Result (Unit {0}) × ImapAdapter
unfolding remove_account join_tasks
stop_account id a = (ok tt, join_tasks (handle_of id a.tracked) (remove_account id a))

abbrev pub head : List FolderConfig → Option FolderConfig
head [] = none
head (f ∷ fs) = some f

abbrev pub tail : List FolderConfig → List FolderConfig
tail [] = []
tail (f ∷ fs) = fs

abbrev pub is_idle : FolderConfig → Bool
is_idle f = f.idle_enabled

-- the folder of the idle task: the first that is idle-enabled
unfoldable pub idle_folder : List FolderConfig → Option FolderConfig
idle_folder folders = head (select is_idle folders)

-- the folders of the poll task: the others, then the surplus idle-enabled ones
unfoldable pub poll_set : List FolderConfig → List FolderConfig
poll_set folders = select (λ f. not (is_idle f)) folders ++ tail (select is_idle folders)

unfoldable pub spawn_idle : ℕ → Option FolderConfig → List Task
spawn_idle id none = []
spawn_idle id (some f) = idle_on id f ∷ []

unfoldable pub spawn_poll : ℕ → List FolderConfig → List Task
spawn_poll id [] = []
spawn_poll id (f ∷ fs) = poll_on id (f ∷ fs) ∷ []

-- the tasks that `start_account` spawns
unfoldable pub spawned : ℕ → List FolderConfig → List Task
unfolding idle_folder poll_set spawn_idle spawn_poll
spawned id folders = spawn_idle id (idle_folder folders) ++ spawn_poll id (poll_set folders)

abbrev pub numbered : ℕ → Task → Running
numbered n t = record { serial = n; task = t }

-- the handle that `start_account` makes
abbrev pub new_handle : ℕ → ℕ → AccountHandle
new_handle id n = record { account_id = id; serial = n; status = initial_status }

-- the tasks of a new handle are spawned; the handle is not in the map yet
unfoldable pub spawn_tasks : List Task → ImapAdapter → ImapAdapter
spawn_tasks tasks a = record a {
  running = map (numbered a.next) tasks ++ a.running;
  next = a.next + 1;
}

-- the insertion of a handle, which replaces the one of its account, if there is one
unfoldable pub track : AccountHandle → ImapAdapter → ImapAdapter
track h a = record a { tracked = h ∷ remove_handle h.account_id a.tracked }

-- `start_account`, without what other calls do between its steps
unfoldable pub start_account : ℕ → ConnectionParams → ImapAdapter → Result (Unit {0}) × ImapAdapter
unfolding stop_account spawned spawn_tasks track
start_account id params a =
    let stopped = (stop_account id a).1 in
    (ok tt, track (new_handle id stopped.next) (spawn_tasks (spawned id params.folders) stopped))

abbrev pub status_of : Option AccountHandle → SyncStatus
status_of none = not_running_status
status_of (some h) = h.status

-- `status`
unfoldable pub status : ℕ → ImapAdapter → Result SyncStatus
status id a = ok (status_of (handle_of id a.tracked))

-- `tracked_accounts`
unfoldable pub tracked_accounts : ImapAdapter → List ℕ
tracked_accounts a = map (λ (h : AccountHandle). h.account_id) a.tracked

-- `ImapPort for ImapAdapter`
unfoldable pub imap_port : ImapPort ImapAdapter
unfolding start_account stop_account status tracked_accounts
imap_port = record {
  start_account = start_account;
  stop_account = stop_account;
  status = status;
  tracked_accounts = tracked_accounts;
}
