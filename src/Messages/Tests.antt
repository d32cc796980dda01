-- ===== src/Messages/Tests.antt =====
-- Locations at concrete inputs.

use mail_keep.Imap.Io.{no_flags}
use mail_keep.Messages.Locations.{MessageLocation, NewMessageLocationRow}

abbrev a_location : MessageLocation
a_location = record {
  id = 9;
  version = 1;
  message_id = 5;
  folder_id = 3;
  uid = 20;
  uidvalidity = 6;
  flags = no_flags;
  internal_date = 50;
  first_seen_at = 60;
  updated_at = 60;
}

abbrev moved : NewMessageLocationRow
moved = record {
  id = 10;
  message_id = 5;
  folder_id = 3;
  uid = 21;
  uidvalidity = 7;
  flags = no_flags;
  internal_date = 50;
}
