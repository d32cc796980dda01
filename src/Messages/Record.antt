-- ===== src/Messages/Record.antt =====
-- crates/core/src/message/service.rs: a parsed message is archived under the hash of its bytes, once
-- for an account. What a call draws afresh, token ids and clock values, is the record `Drawn`. After
-- a refused INSERT the model's database takes further statements of the same transaction, as SQLite
-- does.
use mail_keep.Base.{ℕ, suc, min, Bool, true, false, Option, none, some, List, [], ◌∷◌, length}
use mail_keep.Error.{RepositoryError, repository_error}
use mail_keep.Sql.{Sql, pure, ok_or, ◌>>=◌, on_constraint, transaction, read_only_transaction, zoom}
use mail_keep.Imap.Io.{MessageFlags}
use mail_keep.Messages.Model.{
  RecordedMessage, NewMessageRow, NewMessageAttachmentRow, ParsedAttachment, ParsedMessage, Message,
  MessageAttachment,
}
use mail_keep.Messages.Locations.{Locations, NewMessageLocationRow, upsert, delete_by_folder_id}
use mail_keep.Messages.Store.{
  Mail, find_by_account_and_content_hash, create, find_message_for_account,
  list_messages_for_account, list_by_ids_for_user, find_message_for_user,
}
use mail_keep.Messages.Attachments.{create_attachments, list_for_message}

pub record Drawn : Type 0 where
  pub now : ℕ
  pub message_id : ℕ
  pub attachment_id : ℕ → ℕ
  pub location_id : ℕ

-- where the message lies on the server: the further arguments of `record_parsed_message`
pub record Place : Type 0 where
  pub folder_id : ℕ
  pub uid : ℕ
  pub uidvalidity : ℕ
  pub internal_date : ℕ
  pub flags : MessageFlags

abbrev pub i32_max : ℕ
i32_max = 2147483647

abbrev pub has_items : {A : Type 0} → List A → Bool
has_items [] = false
has_items (_ ∷ _) = true

-- `new_message_row`
unfoldable pub new_message_row : Drawn → ℕ → ParsedMessage → NewMessageRow
new_message_row drawn account parsed = record {
  id = drawn.message_id;
  account_id = account;
  rfc822_message_id = parsed.rfc822_message_id;
  content_hash = parsed.content_hash;
  subject = parsed.subject;
  from_address = parsed.from_address;
  from_name = parsed.from_name;
  to_addresses = parsed.to_addresses;
  cc_addresses = parsed.cc_addresses;
  bcc_addresses = parsed.bcc_addresses;
  reply_to_addresses = parsed.reply_to_addresses;
  sent_date = parsed.sent_date;
  in_reply_to = parsed.in_reply_to;
  references = parsed.references;
  snippet = parsed.snippet;
  size_bytes = parsed.size_bytes;
  has_attachments = has_items parsed.attachments;
  attachment_count = min (length parsed.attachments) i32_max;
}

-- `attachment_rows`, from the n-th on
unfoldable pub attachment_rows :
    Drawn → ℕ → ℕ → ℕ → List ParsedAttachment → List NewMessageAttachmentRow
attachment_rows drawn message account n [] = []
attachment_rows drawn message account n (a ∷ rest) =
    record {
      id = drawn.attachment_id n;
      message_id = message;
      account_id = account;
      content_hash = a.content_hash;
      filename = a.filename;
      content_type = a.content_type;
      size_bytes = a.size_bytes;
      is_inline = a.is_inline;
      content_id = a.content_id;
    }
    ∷ attachment_rows drawn message account (suc n) rest

-- the arm of a message that `create` inserted
unfoldable pub created_message : Drawn → ℕ → ParsedMessage → Message → Sql Mail (ℕ × Bool)
unfolding attachment_rows pure
created_message drawn account parsed message = do
  _ ← create_attachments drawn.now (attachment_rows drawn message.id account 0 parsed.attachments)
  pure (message.id, true)

-- The arm of a refused row: the message that another worker archived first. The transaction goes on
-- after the refused INSERT, as on SQLite and MySQL; PostgreSQL would fail the lookup.
unfoldable pub raced_message : ℕ → ParsedMessage → Sql Mail (ℕ × Bool)
unfolding ok_or pure
raced_message account parsed = do
  found ← find_by_account_and_content_hash account parsed.content_hash
  winner ← ok_or found (repository_error RepositoryError.conflict)
  pure (winner.id, false)

-- `create` with the violated constraint as `none`
unfoldable pub create_or_none : Drawn → ℕ → ParsedMessage → Sql Mail (Option Message)
unfolding create on_constraint new_message_row pure
create_or_none drawn account parsed =
    on_constraint
      (do message ← create drawn.now (new_message_row drawn account parsed); pure (some message))
      (pure none)

-- the arms of the match on `create`
unfoldable pub match_created : Drawn → ℕ → ParsedMessage → Option Message → Sql Mail (ℕ × Bool)
unfolding created_message raced_message
match_created drawn account parsed (some message) = created_message drawn account parsed message
match_created drawn account parsed none = raced_message account parsed

-- the match on `existing`
unfoldable pub message_and_created :
    Drawn → ℕ → ParsedMessage → Option Message → Sql Mail (ℕ × Bool)
unfolding create_or_none match_created pure
message_and_created drawn account parsed (some existing) = pure (existing.id, false)
message_and_created drawn account parsed none = do
  archived ← create_or_none drawn account parsed
  match_created drawn account parsed archived

-- the methods of the locations' repository on their table
abbrev pub on_locations : {A : Type 0} → Sql Locations A → Sql Mail A
on_locations m = zoom (λ t. t.locations) (λ l t. record t { locations = l }) m

-- `location_row`
unfoldable pub location_row : Drawn → Place → ℕ → NewMessageLocationRow
location_row drawn place message = record {
  id = drawn.location_id;
  message_id = message;
  folder_id = place.folder_id;
  uid = place.uid;
  uidvalidity = place.uidvalidity;
  flags = place.flags;
  internal_date = place.internal_date;
}

-- the end of the body, for the message's id and whether it is new
unfoldable pub place_message : Drawn → Place → ℕ × Bool → Sql Mail RecordedMessage
unfolding location_row pure zoom
place_message drawn place archived = do
  _ ← on_locations (upsert drawn.now (location_row drawn place archived.0))
  pure (record { message_id = archived.0; created = archived.1 })

-- the body of the transaction of `record_parsed_message`
unfoldable pub record_body : Drawn → ℕ → Place → ParsedMessage → Sql Mail RecordedMessage
unfolding message_and_created place_message
record_body drawn account place parsed = do
  existing ← find_by_account_and_content_hash account parsed.content_hash
  archived ← message_and_created drawn account parsed existing
  place_message drawn place archived

-- `record_parsed_message`
unfoldable pub record_parsed_message : Drawn → ℕ → Place → ParsedMessage → Sql Mail RecordedMessage
unfolding record_body transaction
record_parsed_message drawn account place parsed =
    transaction (record_body drawn account place parsed)

-- `delete_locations_for_folder`
unfoldable pub delete_locations_for_folder : ℕ → Sql Mail ℕ
unfolding transaction zoom
delete_locations_for_folder folder = transaction (on_locations (delete_by_folder_id folder))

-- `get_message_for_account`
unfoldable pub get_message_for_account : ℕ → ℕ → Sql Mail (Option Message)
unfolding read_only_transaction
get_message_for_account account id = read_only_transaction (find_message_for_account account id)

-- `list_messages_for_account`
unfoldable pub service_list_messages : ℕ → ℕ → ℕ → Sql Mail (List Message)
unfolding read_only_transaction
service_list_messages account limit offset =
    read_only_transaction (list_messages_for_account account limit offset)

-- `get_messages_by_ids`
unfoldable pub get_messages_by_ids : ℕ → List ℕ → Sql Mail (List Message)
unfolding read_only_transaction
get_messages_by_ids user ids = read_only_transaction (list_by_ids_for_user user ids)

abbrev attached : Option Message → Sql Mail (Option (Message × List MessageAttachment))
attached none = pure none
attached (some message) = do
  attachments ← list_for_message message.id
  pure (some (message, attachments))

-- the body of `get_message_with_attachments`
unfoldable pub with_attachments : ℕ → ℕ → Sql Mail (Option (Message × List MessageAttachment))
with_attachments user id = do found ← find_message_for_user user id; attached found

-- `get_message_with_attachments`, with the id in the token
unfoldable pub get_message_with_attachments :
    ℕ → ℕ → Sql Mail (Option (Message × List MessageAttachment))
unfolding read_only_transaction with_attachments
get_message_with_attachments user id = read_only_transaction (with_attachments user id)
