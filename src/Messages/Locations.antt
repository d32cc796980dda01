-- ===== src/Messages/Locations.antt =====
-- crates/database/src/adapters/message_location.rs: where a message lies on the server, one row for
-- a message and a folder. The flags are stored as JSON and read back; the token is a function of the
-- id. `now` is the clock's value in the method.
use mail_keep.Base.{
  ℕ, ◌+◌, Bool, ◌&&◌, Option, none, some, List, [], ◌∷◌, ◌++◌, ◌==◌, if◌then◌else◌, any,
}
use mail_keep.Error.{invalid_id}
use mail_keep.Sql.{Sql, pure, raise, statement, query, ◌>>=◌}
use mail_keep.Sql.Table.{select, matching, update_many, delete_many, find_first}
use mail_keep.Imap.Io.{MessageFlags}

-- `MessageLocation`, and the row of the table
pub record MessageLocation : Type 0 where
  pub id : ℕ
  pub version : ℕ
  pub message_id : ℕ
  pub folder_id : ℕ
  pub uid : ℕ
  pub uidvalidity : ℕ
  pub flags : MessageFlags
  pub internal_date : ℕ
  pub first_seen_at : ℕ
  pub updated_at : ℕ

-- `NewMessageLocationRow`, with the id that its token holds
pub record NewMessageLocationRow : Type 0 where
  pub id : ℕ
  pub message_id : ℕ
  pub folder_id : ℕ
  pub uid : ℕ
  pub uidvalidity : ℕ
  pub flags : MessageFlags
  pub internal_date : ℕ

abbrev pub Locations : Type 0
Locations = List MessageLocation

-- the filter on a message and a folder
abbrev pub lies_at : ℕ → ℕ → MessageLocation → Bool
lies_at message folder l = l.message_id == message && l.folder_id == folder

-- `find_by_message_and_folder`
unfoldable pub find_by_message_and_folder : ℕ → ℕ → Sql Locations (Option MessageLocation)
unfolding query raise
find_by_message_and_folder message folder =
    if message == 0
    then raise (invalid_id message)
    else if folder == 0
    then raise (invalid_id folder)
    else query (λ rows. find_first (lies_at message folder) rows)

-- the row that `upsert` writes over `found`, after `before_save`
unfoldable pub moved_row : ℕ → NewMessageLocationRow → MessageLocation → MessageLocation
moved_row now new found = record found {
  version = found.version + 1;
  uid = new.uid;
  uidvalidity = new.uidvalidity;
  flags = new.flags;
  internal_date = new.internal_date;
  updated_at = now;
}

-- the row that `upsert` inserts, after `before_save`
unfoldable pub first_row : ℕ → NewMessageLocationRow → MessageLocation
first_row now new = record {
  id = new.id;
  version = 0 + 1;
  message_id = new.message_id;
  folder_id = new.folder_id;
  uid = new.uid;
  uidvalidity = new.uidvalidity;
  flags = new.flags;
  internal_date = new.internal_date;
  first_seen_at = now;
  updated_at = now;
}

-- the write that ends `upsert`
unfoldable pub upsert_write :
    ℕ → NewMessageLocationRow → Option MessageLocation → Sql Locations MessageLocation
unfolding moved_row first_row statement
upsert_write now new (some found) =
    let row = moved_row now new found in
    statement (λ rows. (row, update_many (λ l. l.id == found.id) (λ _. row) rows))
upsert_write now new none =
    let row = first_row now new in statement (λ rows. (row, rows ++ row ∷ []))

-- `upsert`
unfoldable pub upsert : ℕ → NewMessageLocationRow → Sql Locations MessageLocation
unfolding upsert_write query raise
upsert now new =
    if new.message_id == 0
    then raise (invalid_id new.message_id)
    else if new.folder_id == 0
    then raise (invalid_id new.folder_id)
    else do
      existing ← query (λ rows. find_first (lies_at new.message_id new.folder_id) rows)
      upsert_write now new existing

-- `delete_by_folder_id`, with the number of rows deleted
unfoldable pub delete_by_folder_id : ℕ → Sql Locations ℕ
unfolding statement raise
delete_by_folder_id folder =
    if folder == 0
    then raise (invalid_id folder)
    else statement (λ rows.
      (matching (λ l. l.folder_id == folder) rows, delete_many (λ l. l.folder_id == folder) rows))

abbrev pub is_in : List ℕ → ℕ → Bool
is_in ids i = any (λ j. i == j) ids

-- the message ids of some rows, each once
unfoldable pub distinct_messages : List MessageLocation → List ℕ
distinct_messages [] = []
distinct_messages (l ∷ rows) =
    let rest = distinct_messages rows in
    if is_in rest l.message_id then rest else l.message_id ∷ rest

-- `filter_message_ids_in_folders`, in an order that the database chooses
unfoldable pub filter_message_ids_in_folders : List ℕ → List ℕ → Sql Locations (List ℕ)
unfolding distinct_messages query pure
filter_message_ids_in_folders [] folders = pure []
filter_message_ids_in_folders (m ∷ messages) [] = pure []
filter_message_ids_in_folders (m ∷ messages) (f ∷ folders) = query (λ rows.
    distinct_messages
      (select (λ l. is_in (m ∷ messages) l.message_id && is_in (f ∷ folders) l.folder_id) rows))
