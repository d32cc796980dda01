-- ===== src/Imap/Io.antt =====
-- What crates/imap/src/sync.rs works with: the messages and their flags, the server as a record of its
-- answers, and the calls of the services. A call either succeeds and is then the newest event of
-- `World.events`, or it fails as the list `faults` says; an exhausted list means that nothing more
-- fails. The clock is not kept.
use mail_keep.Base.{
  ℕ, suc, ◌+◌, min, String, Bool, true, false, Option, none, some, List, [], ◌∷◌, ◌++◌,
}
use mail_keep.Error.{Error}

abbrev pub u32_max : ℕ
u32_max = 4294967295

-- `u32::saturating_add`
abbrev pub saturating_add : ℕ → ℕ → ℕ
saturating_add a b = min (a + b) u32_max

abbrev pub fetch_batch : ℕ
fetch_batch = 200

-- `async_imap::types::Flag`, as far as `map_flags` tells its cases apart
pub data Flag : Type 0 where
  seen answered flagged draft deleted recent may_create : Flag
  custom : String → Flag

pub record MessageFlags : Type 0 where
  pub seen : Bool
  pub answered : Bool
  pub flagged : Bool
  pub draft : Bool
  pub deleted : Bool
  pub recent : Bool
  pub custom : List String

abbrev pub no_flags : MessageFlags
no_flags = record {
  seen = false;
  answered = false;
  flagged = false;
  draft = false;
  deleted = false;
  recent = false;
  custom = [];
}

-- the body of the loop in `map_flags`
unfoldable pub set_flag : MessageFlags → Flag → MessageFlags
set_flag f seen = record f { seen = true }
set_flag f answered = record f { answered = true }
set_flag f flagged = record f { flagged = true }
set_flag f draft = record f { draft = true }
set_flag f deleted = record f { deleted = true }
set_flag f recent = record f { recent = true }
set_flag f (custom s) = record f { custom = f.custom ++ s ∷ [] }
set_flag f may_create = f

unfoldable pub set_flags : MessageFlags → List Flag → MessageFlags
set_flags f [] = f
set_flags f (flag ∷ flags) = set_flags (set_flag f flag) flags

-- `map_flags`
abbrev pub map_flags : List Flag → MessageFlags
map_flags flags = set_flags no_flags flags

-- One item of the answer to UID FETCH; a server may leave out each part.
pub record Fetched : Type 0 where
  pub uid : Option ℕ
  pub body : Option (List ℕ)
  pub internal_date : Option ℕ
  pub flags : List Flag

-- `IngestRequest`; without an `internal_date` the time of the fetch is taken
pub record IngestRequest : Type 0 where
  pub account_id : ℕ
  pub folder_id : ℕ
  pub uid : ℕ
  pub uidvalidity : ℕ
  pub internal_date : Option ℕ
  pub flags : MessageFlags
  pub raw_bytes : List ℕ

-- `FolderConfig`
pub record FolderConfig : Type 0 where
  pub id : ℕ
  pub path : String
  pub idle_enabled : Bool
  pub uidvalidity : Option ℕ
  pub last_uid : ℕ

-- The answer to SELECT: the mailbox's UIDVALIDITY and UIDNEXT, `NO`, or another failure.
pub data Selected : Type 0 where
  mailbox : Option ℕ → Option ℕ → Selected
  refused broken : Selected

-- The answer to UID FETCH: a failure, or a stream in which `none` is an item that failed.
pub data Stream : Type 0 where
  failed_fetch : Stream
  stream : List (Option Fetched) → Stream

pub record Server : Type 0 where
  pub select : String → Selected
  pub fetch : ℕ → ℕ → Stream

pub data SyncState : Type 0 where
  not_running connecting idle syncing error : SyncState

-- `SyncStatus` without its times
pub record SyncStatus : Type 0 where
  pub state : SyncState
  pub last_error : Option Error
  pub messages_ingested_session : ℕ

-- The calls of the services: `ingest_raw`, `record_sync_progress folder uidvalidity last_uid` and
-- `delete_locations_for_folder folder`.
pub data Event : Type 0 where
  ingested : IngestRequest → Event
  recorded : ℕ → ℕ → ℕ → Event
  dropped : ℕ → Event

-- the events with the newest first
pub record World : Type 0 where
  pub events : List Event
  pub faults : List (Option Error)
  pub status : SyncStatus

-- `unfinished` is a loop whose fuel is used up.
pub data IoResult (A : Type 0) : Type 0 where
  done : A → IoResult A
  failed : Error → IoResult A
  unfinished : IoResult A

abbrev pub Io : Type 0 → Type 0
Io A = World → IoResult A × World

module _ {A : Type 0} where
  unfoldable pub pure : A → Io A
  pure a w = (done a, w)

  unfoldable pub raise : Error → Io A
  raise e w = (failed e, w)

module _ {A B : Type 0} where
  unfoldable pub continue : IoResult A × World → (A → Io B) → IoResult B × World
  continue (done a, w) f = f a w
  continue (failed e, w) f = (failed e, w)
  continue (unfinished, w) f = (unfinished, w)

  infixl 10 ◌>>=◌ ◌>>◌
  abbrev pub ◌>>=◌ : Io A → (A → Io B) → Io B
  ◌>>=◌ m f w = continue (m w) f

  abbrev pub ◌>>◌ : Io A → Io B → Io B
  m >> n = m >>= λ _. n

-- the call of a service
unfoldable pub call_with : List (Option Error) → Event → Io (Unit {0})
call_with [] e w = (done tt, record w { events = e ∷ w.events })
call_with (none ∷ rest) e w = (done tt, record w { events = e ∷ w.events; faults = rest })
call_with (some x ∷ rest) e w = (failed x, record w { faults = rest })

unfoldable pub call : Event → Io (Unit {0})
unfolding call_with
call e w = call_with w.faults e w

unfoldable pub set_state : SyncState → Io (Unit {0})
set_state s w = (done tt, record w { status = record w.status { state = s } })

unfoldable pub count_message : Io (Unit {0})
count_message w =
    let n = w.status.messages_ingested_session in
    (done tt, record w { status = record w.status { messages_ingested_session = suc n } })
