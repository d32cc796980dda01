-- ===== src/Messages/RecordTests.antt =====
-- IsRecorded and listed messages at concrete inputs.
use mail_keep.Base.{
  In, inl, inr, ◌↔◌, ◌≡◌, ℕ, pos, true, false, none, some, [], ◌∷◌, arith, ◌≤◌, ◌+◌, ◌++◌, List,
  All, Option, refl, length,
}
use mail_keep.Sql.{ok, quiet}
use mail_keep.Sql.Table.{select}
use mail_keep.Imap.Io.{no_flags}
use mail_keep.Accounts.{Account, pending_first_sync, tls}
use mail_keep.Messages.Model.{Message, ParsedMessage, ParsedAttachment, MessageAttachment}
use mail_keep.Messages.Locations.{MessageLocation, upsert}
use mail_keep.Messages.Store.{
  Mail, MessageRow, is_listed, find_by_account_and_content_hash, list_and_count_by_folders_for_user,
}
use mail_keep.Messages.Attachments.{create_attachments}
use mail_keep.Messages.Record.{Drawn, Place, record_parsed_message, get_message_with_attachments}
use mail_keep.Messages.Again.{record_parsed_message_again}
use mail_keep.Messages.Listing.{
  Listed, list_and_count_by_folders_for_user_scope, list_and_count_by_folders_for_user_pages,
}
use mail_keep.Messages.Access.{Read, get_message_with_attachments_scope}

abbrev an_account : Account
an_account = record {
  id = 1;
  version = 1;
  user_id = 7;
  display_name = [];
  email_address = [];
  server = record { host = []; port = 993; mode = tls };
  username = [];
  credentials = [];
  enabled = true;
  status = pending_first_sync;
  last_error = none;
  last_synced_at = none;
  created_at = 10;
  updated_at = 10;
}

abbrev an_attachment : ParsedAttachment
an_attachment = record {
  content_hash = 9 ∷ 9 ∷ [];
  filename = some "a.txt";
  content_type = "text/plain";
  size_bytes = 4;
  is_inline = false;
  content_id = none;
}

abbrev a_parsed : ParsedMessage
a_parsed = record {
  rfc822_message_id = "x@y";
  content_hash = 1 ∷ 2 ∷ [];
  subject = some "hello";
  from_address = "a@b";
  from_name = none;
  to_addresses = [];
  cc_addresses = [];
  bcc_addresses = [];
  reply_to_addresses = [];
  sent_date = some (pos 40);
  in_reply_to = none;
  references = [];
  snippet = "hi";
  size_bytes = 100;
  attachments = an_attachment ∷ [];
}

abbrev empty_mail : Mail
empty_mail = record { accounts = an_account ∷ []; messages = []; attachments = []; locations = [] }

abbrev drawn_at : ℕ → Drawn
drawn_at n = record { now = n; message_id = n; attachment_id = λ i. n; location_id = n }

abbrev in_folder : ℕ → Place
in_folder f = record {
  folder_id = f;
  uid = 20;
  uidvalidity = 6;
  internal_date = 50;
  flags = no_flags;
}

-- the tables after a first message
abbrev one_message : Mail
one_message =
    (record_parsed_message (drawn_at 30) 1 (in_folder 3) a_parsed (quiet empty_mail)).1.tables

abbrev a_row : MessageRow
a_row = record {
  message = record {
    id = 30;
    version = 1;
    account_id = 1;
    rfc822_message_id = "x@y";
    content_hash = 1 ∷ 2 ∷ [];
    subject = some "hello";
    from_address = "a@b";
    from_name = none;
    to_addresses = [];
    cc_addresses = [];
    bcc_addresses = [];
    reply_to_addresses = [];
    sent_date = some (pos 40);
    in_reply_to = none;
    references = [];
    snippet = "hi";
    size_bytes = 100;
    has_attachments = true;
    attachment_count = 1;
    created_at = 30;
    updated_at = 30;
  };
  indexed = false;
}

abbrev full_mail : Mail
full_mail = record empty_mail { messages = a_row ∷ [] }

-- a record_body-IsRecorded message is inserted with its attachment
first_is_inserted : one_message.messages ≡ a_row ∷ []
unfolding record_parsed_message find_by_account_and_content_hash create_attachments upsert
first_is_inserted = refl

abbrev a_location : MessageLocation
a_location = record {
  id = 9;
  version = 1;
  message_id = 30;
  folder_id = 3;
  uid = 20;
  uidvalidity = 6;
  flags = no_flags;
  internal_date = 50;
  first_seen_at = 60;
  updated_at = 60;
}

abbrev placed_mail : Mail
placed_mail = record full_mail { locations = a_location ∷ [] }

first_result :
    (record_parsed_message (drawn_at 30) 1 (in_folder 3) a_parsed (quiet empty_mail)).0
    ≡ ok (record { message_id = 30; created = true })
unfolding record_parsed_message find_by_account_and_content_hash create_attachments upsert
first_result = refl

record_parsed_message_again_example :
    let first = record_parsed_message (drawn_at 30) 1 (in_folder 3) a_parsed (quiet empty_mail) in
    let again = record_parsed_message (drawn_at 80) 1 (in_folder 4) a_parsed first.1 in
    (again.0 ≡ ok (record { message_id = 30; created = false }))
    × (again.1.tables.messages ≡ first.1.tables.messages)
    × (again.1.tables.attachments ≡ first.1.tables.attachments)
record_parsed_message_again_example =
    record_parsed_message_again (drawn_at 30) (drawn_at 80) 1 (in_folder 3) (in_folder 4) a_parsed
      a_parsed empty_mail (record { message_id = 30; created = true }) (λ e. omega (arith, e))
      (λ e. omega (arith, e)) refl first_result

list_and_count_by_folders_for_user_scope_example :
    (total : ℕ) × (messages : List Message) × ((list_and_count_by_folders_for_user 7
        ((3 ∷ []) ∷ [])
        (4 ∷ [])
        10
        0
        (quiet placed_mail)).0
      ≡ ok (total, messages))
    × (length messages ≤ 10)
    × All (Listed placed_mail 7 ((3 ∷ []) ∷ []) (4 ∷ [])) messages
list_and_count_by_folders_for_user_scope_example =
    list_and_count_by_folders_for_user_scope 7 ((3 ∷ []) ∷ []) (4 ∷ []) 10 0 placed_mail
      (λ e. omega (arith, e))

-- two messages of one date
abbrev second_row : MessageRow
second_row = record a_row { message = record a_row.message { id = 31 } }

abbrev tied_mail : Mail
tied_mail = record placed_mail {
  messages = a_row ∷ second_row ∷ [];
  locations = a_location ∷ record a_location { message_id = 31 } ∷ [];
}

swapped : (a b r : MessageRow) → In r (a ∷ b ∷ []) → In r (b ∷ a ∷ [])
swapped a b r (inl e) = inr (inl e)
swapped a b r (inr (inl e)) = inl e
swapped a b r (inr (inr i)) = absurd i

tied_rows :
    (r : MessageRow)
    → In r (second_row ∷ a_row ∷ [])
      ↔ In r (select (is_listed tied_mail 7 ((3 ∷ []) ∷ []) (4 ∷ [])) tied_mail.messages)
unfolding is_listed
tied_rows r = (swapped second_row a_row r, swapped a_row second_row r)

list_and_count_by_folders_for_user_pages_example :
    let list = list_and_count_by_folders_for_user 7 ((3 ∷ []) ∷ []) (4 ∷ []) in
    ((list 1 0 (quiet tied_mail)).0 ≡ ok (2, second_row.message ∷ []))
    × ((list 5 (0 + 1) (quiet tied_mail)).0 ≡ ok (2, a_row.message ∷ []))
    × ((second_row.message ∷ []) ++ a_row.message ∷ [] ≡ second_row.message ∷ a_row.message ∷ [])
    × ((list 2 0 (quiet tied_mail)).0 ≡ ok (2, second_row.message ∷ a_row.message ∷ []))
list_and_count_by_folders_for_user_pages_example =
    list_and_count_by_folders_for_user_pages 7 ((3 ∷ []) ∷ []) (4 ∷ []) 1 5 0 tied_mail
      (second_row ∷ a_row ∷ []) (λ e. omega (arith, e)) ((λ e. omega (arith, e), tt), (tt, tt))
      ((λ e. omega (arith, e), tt), (tt, tt)) ((refl, tt), (tt, tt)) tied_rows

get_message_with_attachments_scope_example :
    (o : Option (Message × List MessageAttachment)) × ((get_message_with_attachments 7 30
        (quiet placed_mail)).0
      ≡ ok o)
    × Read placed_mail 7 30 o
get_message_with_attachments_scope_example =
    get_message_with_attachments_scope 7 30 placed_mail (λ e. omega (arith, e))
      (λ e. omega (arith, e))
