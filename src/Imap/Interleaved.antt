-- ===== src/Imap/Interleaved.antt =====
-- Calls of `start_account` and `stop_account` of crates/imap/src/adapter.rs that overlap. The adapter's
-- lock is held for the removal and for the insertion of a handle only, so each call is several steps,
-- between which other calls and the tasks may do theirs.
use mail_keep.Base.{
  ℕ, zero, suc, ◌≡◌, Bool, ◌&&◌, not, Option, none, some, List, [], ◌∷◌, ◌==◌, ◌⊎◌, In,
}
use mail_keep.Sql.Table.{select, find_first, update_many}
use mail_keep.Imap.Io.{SyncStatus}
use mail_keep.Imap.Port.{ConnectionParams}
use mail_keep.Imap.Adapter.{
  AccountHandle, Running, ImapAdapter, handle_of, spawned, new_handle, remove_account, join_tasks,
  spawn_tasks, track,
}
use mail_keep.Imap.Leaks.{no_accounts}
use mail_keep.Imap.Handles.{owner, IsTracked}

-- The adapter, the handles that a `start_account` under way has spawned tasks for and not inserted yet,
-- those that a `stop_account` under way has removed and not joined yet, and those that an insertion has
-- replaced, whose tasks nothing joins.
pub record Overlap : Type 0 where
  pub adapter : ImapAdapter
  pub starting : List AccountHandle
  pub stopping : List AccountHandle
  pub replaced : List AccountHandle

-- the steps of the calls, by account and by the serial number of a handle, and those of the tasks: one
-- sets its handle's status, or ends by itself
pub data Step : Type 0 where
  remove : ℕ → Step
  join : ℕ → Step
  spawn : ℕ → ConnectionParams → Step
  insert_handle : ℕ → ℕ → Step
  report : ℕ → SyncStatus → Step
  end_task : ℕ → Step

abbrev pub taken : Option AccountHandle → List AccountHandle → List AccountHandle
taken none hs = hs
taken (some h) hs = h ∷ hs

abbrev pub without : ℕ → List AccountHandle → List AccountHandle
without n hs = select (λ h. not (h.serial == n)) hs

abbrev pub is_handle : ℕ → ℕ → AccountHandle → Bool
is_handle id n h = h.account_id == id && h.serial == n

abbrev pub reported : ℕ → SyncStatus → List AccountHandle → List AccountHandle
reported n s hs = update_many (λ h. h.serial == n) (λ h. record h { status = s }) hs

abbrev pub drop_nth : ℕ → List Running → List Running
drop_nth k [] = []
drop_nth zero (r ∷ rs) = rs
drop_nth (suc k) (r ∷ rs) = r ∷ drop_nth k rs

-- the handle that is joined is one that a stop has removed
unfoldable pub joined : Option AccountHandle → Overlap → Overlap
unfolding join_tasks
joined none c = c
joined (some h) c = record c {
  adapter = join_tasks (some h) c.adapter;
  stopping = without h.serial c.stopping;
}

-- the handle that is inserted is one that a start has made
unfoldable pub inserted : Option AccountHandle → Overlap → Overlap
unfolding track
inserted none c = c
inserted (some h) c = record c {
  adapter = track h c.adapter;
  starting = select (λ g. not (is_handle h.account_id h.serial g)) c.starting;
  replaced = taken (handle_of h.account_id c.adapter.tracked) c.replaced;
}

unfoldable pub step : Step → Overlap → Overlap
unfolding remove_account joined spawn_tasks spawned inserted
step (remove id) c = record c {
  adapter = remove_account id c.adapter;
  stopping = taken (handle_of id c.adapter.tracked) c.stopping;
}
step (join n) c = joined (find_first (λ h. h.serial == n) c.stopping) c
step (spawn id params) c = record c {
  adapter = spawn_tasks (spawned id params.folders) c.adapter;
  starting = new_handle id c.adapter.next ∷ c.starting;
}
step (insert_handle id n) c = inserted (find_first (is_handle id n) c.starting) c
step (report n s) c = record c {
  adapter = record c.adapter { tracked = reported n s c.adapter.tracked };
  starting = reported n s c.starting;
  stopping = reported n s c.stopping;
  replaced = reported n s c.replaced;
}
step (end_task k) c = record c {
  adapter = record c.adapter { running = drop_nth k c.adapter.running };
}

unfoldable pub run_steps : List Step → Overlap → Overlap
unfolding step
run_steps [] c = c
run_steps (s ∷ ss) c = run_steps ss (step s c)

abbrev pub no_calls : Overlap
no_calls = record { adapter = no_accounts; starting = []; stopping = []; replaced = [] }

-- the task is one of a handle of its account
abbrev pub IsOf : Running → AccountHandle → Type 0
IsOf r h = (h.account_id ≡ owner r.task) × (h.serial ≡ r.serial)

abbrev pub Holds : List AccountHandle → Running → Type 0
Holds hs r = (h : AccountHandle) × In h hs × IsOf r h

-- A call under way, or a handle that was replaced, holds the task.
abbrev pub IsUnderWay : Overlap → Running → Type 0
IsUnderWay c r = Holds c.starting r ⊎ Holds c.stopping r ⊎ Holds c.replaced r

abbrev pub IsHeld : Overlap → Running → Type 0
IsHeld c r = IsTracked c.adapter.tracked r ⊎ IsUnderWay c r
