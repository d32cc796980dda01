-- ===== src/Parser/Tests.antt =====
-- A parse job at a concrete input: a message with one attachment.
use mail_keep.Base.{◌≡◌, refl, none, false, List, [], ◌∷◌, Text, text_eq, arith}
use mail_keep.Sql.{Result, ok, quiet}
use mail_keep.Imap.Io.{no_flags}
use mail_keep.Messages.Store.{Mail, find_by_account_and_content_hash}
use mail_keep.Messages.Attachments.{create_attachments}
use mail_keep.Messages.Locations.{upsert}
use mail_keep.Messages.Model.{ContentHash}
use mail_keep.Messages.Record.{Drawn}
use mail_keep.Storage.Disk.{Disk, path_eq, atomic_write_all, return}
use mail_keep.Storage.Blobs.{get, blob_path, account_root}
use mail_keep.Storage.Integrity.{IsSound}
use mail_keep.Storage.Toy.{toy, toy_hash}
use mail_keep.Parser.{ParsedEml, ParseMessageJob, Shelf, handle_job}
use mail_keep.Parser.Stored.{IsArchived, handle_job-IsArchived}

abbrev raw_root : List Text
raw_root = (8 ∷ []) ∷ []

abbrev root : List Text
root = (9 ∷ []) ∷ []

abbrev a_disk : Disk
a_disk = record {
  files =
      record {
        path = blob_path toy.decimal raw_root 1 (toy_hash (5 ∷ []));
        content = 1 ∷ 5 ∷ 6 ∷ [];
      }
      ∷ [];
  faults = [];
}

abbrev an_email : ParsedEml
an_email = record {
  rfc822_message_id = "x@y";
  subject = none;
  from_address = "a@b";
  from_name = none;
  to_addresses = [];
  cc_addresses = [];
  bcc_addresses = [];
  reply_to_addresses = [];
  sent_date = none;
  in_reply_to = none;
  references = [];
  snippet = "hi";
  size_bytes = 2;
  attachments =
      record {
        bytes = 7 ∷ [];
        filename = none;
        content_type = "text/plain";
        is_inline = false;
        content_id = none;
      }
      ∷ [];
}

abbrev a_job : ParseMessageJob
a_job = record {
  account_id = 1;
  place = record { folder_id = 3; uid = 20; uidvalidity = 6; internal_date = 50; flags = no_flags };
  content_hash = toy_hash (5 ∷ []);
}

abbrev drawn : Drawn
drawn = record { now = 10; message_id = 30; attachment_id = λ i. 40; location_id = 50 }

abbrev no_mail : Mail
no_mail = record { accounts = []; messages = []; attachments = []; locations = [] }

abbrev parse_small : ContentHash → Text → Result ParsedEml
parse_small h raw = ok an_email

abbrev shelf : Shelf
shelf = record { disk = a_disk; mail = quiet no_mail }

a_disk-IsSound : IsSound toy root a_disk.files
unfolding path_eq blob_path account_root text_eq
a_disk-IsSound a h x i e = ground (arith, e)

raw_read : (get toy.decimal raw_root toy.decrypt 1 (toy_hash (5 ∷ [])) a_disk).0 ≡ ok (5 ∷ 6 ∷ [])
unfolding get path_eq text_eq
raw_read = refl

handled : (handle_job toy raw_root root parse_small drawn a_job shelf).0 ≡ ok tt
unfolding handle_job path_eq text_eq atomic_write_all return find_by_account_and_content_hash
    create_attachments upsert
handled = refl

handle_job-IsArchived_example :
    IsArchived toy raw_root root a_job an_email
      (handle_job toy raw_root root parse_small drawn a_job shelf).1
handle_job-IsArchived_example =
    handle_job-IsArchived toy raw_root root parse_small drawn a_job an_email a_disk no_mail
      (5 ∷ 6 ∷ []) a_disk-IsSound (λ e. omega (arith, e)) raw_read refl handled
