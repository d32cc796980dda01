-- ===== src/Messages/Store.antt =====
-- crates/database/src/adapters/message.rs over the tables that the repositories of messages read.
-- The lists in a row are stored as JSON and read back, the hash as hexadecimal. `now` is the clock's
-- value in the method. The unique index on account and hash is that of
-- crates/database/src/migrations/m20260621_000010_message_identity_by_content_hash.rs.
use mail_keep.Base.{
  ℕ, ◌+◌, ℤ, lt_ℤ, Bool, true, false, ◌&&◌, ◌||◌, not, Option, none, some, List, [], ◌∷◌, ◌++◌, map,
  ◌==◌, ltb, if◌then◌else◌, any, all, option_map, text_eq,
}
use mail_keep.Error.{constraint, invalid_id, repository_error}
use mail_keep.Sql.{Result, ok, err, Sql, pure, raise, lift, statement, query, ◌>>=◌}
use mail_keep.Sql.Table.{select, matching, update_many, find_first}
use mail_keep.Sql.Order.{order_by, page}
use mail_keep.Accounts.{Account}
use mail_keep.Messages.Model.{ContentHash, Message, NewMessageRow, MessageAttachment}
use mail_keep.Messages.Locations.{Locations, is_in}

-- the row of `messages`: the message and the indexer's watermark
pub record MessageRow : Type 0 where
  pub message : Message
  pub indexed : Bool

-- the tables that the repositories of messages read and write
pub record Mail : Type 0 where
  pub accounts : List Account
  pub messages : List MessageRow
  pub attachments : List MessageAttachment
  pub locations : Locations

abbrev pub messages_of : List MessageRow → List Message
messages_of rows = map (λ r. r.message) rows

abbrev pub has_content : ℕ → ContentHash → MessageRow → Bool
has_content account hash r = r.message.account_id == account && text_eq r.message.content_hash hash

abbrev pub message_row : Option MessageRow → Option Message
message_row o = option_map (λ r. r.message) o

-- `find_by_account_and_content_hash`
unfoldable pub find_by_account_and_content_hash : ℕ → ContentHash → Sql Mail (Option Message)
unfolding query raise
find_by_account_and_content_hash account hash =
    if account == 0
    then raise (invalid_id account)
    else query (λ t. message_row (find_first (has_content account hash) t.messages))

-- the row that `create` inserts, after `before_save`
unfoldable pub message_of : ℕ → NewMessageRow → MessageRow
message_of now new = record {
  message = record {
    id = new.id;
    version = 0 + 1;
    account_id = new.account_id;
    rfc822_message_id = new.rfc822_message_id;
    content_hash = new.content_hash;
    subject = new.subject;
    from_address = new.from_address;
    from_name = new.from_name;
    to_addresses = new.to_addresses;
    cc_addresses = new.cc_addresses;
    bcc_addresses = new.bcc_addresses;
    reply_to_addresses = new.reply_to_addresses;
    sent_date = new.sent_date;
    in_reply_to = new.in_reply_to;
    references = new.references;
    snippet = new.snippet;
    size_bytes = new.size_bytes;
    has_attachments = new.has_attachments;
    attachment_count = new.attachment_count;
    created_at = now;
    updated_at = now;
  };
  indexed = false;
}

-- the primary key and the unique index refuse the row
unfoldable pub is_taken : NewMessageRow → List MessageRow → Bool
is_taken new rows =
    any (λ r. r.message.id == new.id || has_content new.account_id new.content_hash r) rows

-- the INSERT of `create` on the tables
unfoldable pub insert_message : ℕ → NewMessageRow → Mail → Result Message × Mail
unfolding is_taken message_of
insert_message now new t =
    if is_taken new t.messages
    then (err (repository_error (constraint "unique constraint")), t)
    else (
      ok (message_of now new).message,
      record t { messages = t.messages ++ message_of now new ∷ [] },
    )

-- `create`
unfoldable pub create : ℕ → NewMessageRow → Sql Mail Message
unfolding insert_message statement lift raise
create now new =
    if new.account_id == 0
    then raise (invalid_id new.account_id)
    else do saved ← statement (insert_message now new); lift saved

-- `find_by_id_for_account`
unfoldable pub find_message_for_account : ℕ → ℕ → Sql Mail (Option Message)
unfolding query raise
find_message_for_account account id =
    if account == 0
    then raise (invalid_id account)
    else if id == 0
    then raise (invalid_id id)
    else query (λ t.
      message_row
        (find_first (λ r. r.message.id == id && r.message.account_id == account) t.messages))

-- `sent_date` descending with nulls last
abbrev pub newer_date : Option ℤ → Option ℤ → Bool
newer_date none _ = false
newer_date (some a) none = true
newer_date (some a) (some b) = lt_ℤ b a

-- the order of the lists: the date, then the id descending
abbrev pub newer : MessageRow → MessageRow → Bool
newer a b =
    newer_date a.message.sent_date b.message.sent_date
    || (not (newer_date b.message.sent_date a.message.sent_date) && ltb b.message.id a.message.id)

-- `list_for_account`
unfoldable pub list_messages_for_account : ℕ → ℕ → ℕ → Sql Mail (List Message)
unfolding query raise
list_messages_for_account account limit offset =
    if account == 0
    then raise (invalid_id account)
    else query (λ t. messages_of (
        page limit offset
          (order_by newer (select (λ r. r.message.account_id == account) t.messages))))

-- the subquery on the accounts of a user
abbrev pub in_owned_accounts : Mail → ℕ → MessageRow → Bool
in_owned_accounts t user r = any (λ a. a.user_id == user && r.message.account_id == a.id) t.accounts

-- `list_by_ids_for_user`
unfoldable pub list_by_ids_for_user : ℕ → List ℕ → Sql Mail (List Message)
unfolding query raise pure
list_by_ids_for_user user [] = if user == 0 then raise (invalid_id user) else pure []
list_by_ids_for_user user (i ∷ ids) =
    if user == 0
    then raise (invalid_id user)
    else query (λ t.
      messages_of
        (select (λ r. is_in (i ∷ ids) r.message.id && in_owned_accounts t user r) t.messages))

-- `find_by_id_for_user`
unfoldable pub find_message_for_user : ℕ → ℕ → Sql Mail (Option Message)
unfolding query raise
find_message_for_user user id =
    if user == 0
    then raise (invalid_id user)
    else if id == 0
    then raise (invalid_id id)
    else query (λ t.
      message_row (find_first (λ r. r.message.id == id && in_owned_accounts t user r) t.messages))

-- the subquery on the locations in some folders
abbrev pub lies_in : Mail → List ℕ → MessageRow → Bool
lies_in t folders r =
    any (λ l. is_in folders l.folder_id && r.message.id == l.message_id) t.locations

-- the conditions of `list_and_count_by_folders_for_user`; no location is in an empty `exclude`
unfoldable pub is_listed : Mail → ℕ → List (List ℕ) → List ℕ → MessageRow → Bool
is_listed t user groups exclude r =
    in_owned_accounts t user r && (all (λ g. lies_in t g r) groups && not (lies_in t exclude r))

-- `list_and_count_by_folders_for_user`
unfoldable pub list_and_count_by_folders_for_user :
    ℕ → List (List ℕ) → List ℕ → ℕ → ℕ → Sql Mail (ℕ × List Message)
unfolding is_listed query raise pure
list_and_count_by_folders_for_user user groups exclude limit offset =
    if user == 0 then raise (invalid_id user) else do
      total ← query (λ t. matching (is_listed t user groups exclude) t.messages)
      rows ← query (λ t.
          page limit offset (order_by newer (select (is_listed t user groups exclude) t.messages)))
      pure (total, messages_of rows)

-- `list_unindexed`
unfoldable pub list_unindexed : ℕ → Sql Mail (List Message)
unfolding query
list_unindexed limit = query (λ t. messages_of (
    page limit 0
      (order_by (λ a b. ltb a.message.id b.message.id) (select (λ r. not r.indexed) t.messages))))

-- `mark_indexed`
unfoldable pub mark_indexed : List ℕ → Sql Mail (Unit {0})
unfolding statement pure
mark_indexed [] = pure tt
mark_indexed (i ∷ ids) = statement (λ t. (
  tt,
  record t {
    messages =
        update_many (λ r. is_in (i ∷ ids) r.message.id) (λ r. record r { indexed = true })
          t.messages;
  },
))

-- `reset_all_indexed`
unfoldable pub reset_all_indexed : Sql Mail ℕ
unfolding statement
reset_all_indexed = statement (λ t. (
  matching (λ r. true) t.messages,
  record t { messages = update_many (λ r. true) (λ r. record r { indexed = false }) t.messages },
))
