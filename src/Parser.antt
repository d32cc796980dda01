-- ===== src/Parser.antt =====
-- crates/core/src/ingest/service.rs and crates/parser/src/handler.rs: a raw message is stored and its
-- parse job enqueued; the job reads it back, stores its attachments and records it. The parser of MIME
-- is a parameter, and so is the JSON text of a job.
pub mod Stored
mod Tests
use mail_keep.Base.{ℕ, ℤ, pos, Bool, Option, List, [], ◌∷◌, length, String, Text}
use mail_keep.Error.{Error}
use mail_keep.Sql.{Result, ok, err, Tx}
use mail_keep.Imap.Io.{MessageFlags}
use mail_keep.Jobs.Service.{Queue, service_enqueue_raw}
use mail_keep.Messages.Model.{
  ContentHash, NamedAddress, ParsedAttachment, ParsedMessage, RecordedMessage,
}
use mail_keep.Messages.Store.{Mail}
use mail_keep.Messages.Record.{Drawn, Place, record_parsed_message}
use mail_keep.Storage.Disk.{Disk, Io, FilePath}
use mail_keep.Storage.Blobs.{put_if_absent, get}
use mail_keep.Storage.Integrity.{Outside}

-- `IngestRequest` and `ParseMessageJob`, with the arguments that they share in a record
pub record RawMessage : Type 0 where
  pub account_id : ℕ
  pub place : Place
  pub raw_bytes : Text

pub record ParseMessageJob : Type 0 where
  pub account_id : ℕ
  pub place : Place
  pub content_hash : ContentHash

-- `ExtractedAttachment`
pub record ExtractedAttachment : Type 0 where
  pub bytes : Text
  pub filename : Option String
  pub content_type : String
  pub is_inline : Bool
  pub content_id : Option String

-- `ParsedEml`
pub record ParsedEml : Type 0 where
  pub rfc822_message_id : String
  pub subject : Option String
  pub from_address : String
  pub from_name : Option String
  pub to_addresses : List NamedAddress
  pub cc_addresses : List NamedAddress
  pub bcc_addresses : List NamedAddress
  pub reply_to_addresses : List NamedAddress
  pub sent_date : Option ℤ
  pub in_reply_to : Option String
  pub references : List String
  pub snippet : String
  pub size_bytes : ℕ
  pub attachments : List ExtractedAttachment

-- the attachment that the handler pairs with its hash
unfoldable pub parsed_attachment : ExtractedAttachment → ContentHash → ParsedAttachment
parsed_attachment a hash = record {
  content_hash = hash;
  filename = a.filename;
  content_type = a.content_type;
  size_bytes = length a.bytes;
  is_inline = a.is_inline;
  content_id = a.content_id;
}

-- the message that the handler records
unfoldable pub parsed_message : ContentHash → ParsedEml → List ParsedAttachment → ParsedMessage
parsed_message hash p attachments = record {
  rfc822_message_id = p.rfc822_message_id;
  content_hash = hash;
  subject = p.subject;
  from_address = p.from_address;
  from_name = p.from_name;
  to_addresses = p.to_addresses;
  cc_addresses = p.cc_addresses;
  bcc_addresses = p.bcc_addresses;
  reply_to_addresses = p.reply_to_addresses;
  sent_date = p.sent_date;
  in_reply_to = p.in_reply_to;
  references = p.references;
  snippet = p.snippet;
  size_bytes = p.size_bytes;
  attachments = attachments;
}

-- what the handler changes: the files, and the tables of messages
pub record Shelf : Type 0 where
  pub disk : Disk
  pub mail : Tx Mail

-- what the ingest service changes: the files, and the queue of jobs
pub record Inbox : Type 0 where
  pub disk : Disk
  pub queue : Queue

module _ (o : Outside) (raw_root attachment_root : FilePath) where
  abbrev pub push_attachment :
      ExtractedAttachment
      → ContentHash
      → Result (List ParsedAttachment) × Disk
      → Result (List ParsedAttachment) × Disk
  push_attachment a hash (ok more, d) = (ok (parsed_attachment a hash ∷ more), d)
  push_attachment a hash (err e, d) = (err e, d)

  abbrev pub store_next :
      ExtractedAttachment
      → Result Text × Disk
      → (Disk → Result (List ParsedAttachment) × Disk)
      → Result (List ParsedAttachment) × Disk
  store_next a (ok hash, d) rest = push_attachment a hash (rest d)
  store_next a (err e, d) rest = (err e, d)

  -- the loop over the attachments
  unfoldable pub store_attachments :
      ℕ → List ExtractedAttachment → Disk → Result (List ParsedAttachment) × Disk
  unfolding put_if_absent parsed_attachment
  store_attachments account [] d = (ok [], d)
  store_attachments account (a ∷ rest) d =
      store_next a (put_if_absent o.decimal attachment_root o.sha256 o.encrypt account a.bytes d)
        (store_attachments account rest)

  abbrev pub nothing_of : Result RecordedMessage × Tx Mail → Disk → Result (Unit {0}) × Shelf
  nothing_of (ok r, mail) d = (ok tt, record { disk = d; mail = mail })
  nothing_of (err e, mail) d = (err e, record { disk = d; mail = mail })

  -- the end of `handle`, for the attachments that were stored
  unfoldable pub record_stored :
      Drawn
      → ParseMessageJob
      → ParsedEml
      → Result (List ParsedAttachment) × Disk
      → Tx Mail
      → Result (Unit {0}) × Shelf
  unfolding parsed_message record_parsed_message
  record_stored drawn job p (err e, d) mail = (err e, record { disk = d; mail = mail })
  record_stored drawn job p (ok attachments, d) mail =
      nothing_of
        (record_parsed_message drawn job.account_id job.place
          (parsed_message job.content_hash p attachments) mail)
        d

  -- `handle` from the parser's answer on
  unfoldable pub handle_parsed :
      Drawn → ParseMessageJob → Result ParsedEml → Shelf → Result (Unit {0}) × Shelf
  unfolding store_attachments record_stored
  handle_parsed drawn job (err e) s = (err e, s)
  handle_parsed drawn job (ok p) s =
      record_stored drawn job p (store_attachments job.account_id p.attachments s.disk) s.mail

  abbrev pub handle_raw :
      (ContentHash → Text → Result ParsedEml)
      → Drawn
      → ParseMessageJob
      → Result Text × Disk
      → Tx Mail
      → Result (Unit {0}) × Shelf
  handle_raw parse_eml drawn job (err e, d) mail = (err e, record { disk = d; mail = mail })
  handle_raw parse_eml drawn job (ok raw, d) mail =
      handle_parsed drawn job (parse_eml job.content_hash raw) (record { disk = d; mail = mail })

  -- `handle`
  unfoldable pub handle_job :
      (ContentHash → Text → Result ParsedEml)
      → Drawn
      → ParseMessageJob
      → Shelf
      → Result (Unit {0}) × Shelf
  unfolding handle_parsed get
  handle_job parse_eml drawn job s =
      handle_raw parse_eml drawn job
        (get o.decimal raw_root o.decrypt job.account_id job.content_hash s.disk) s.mail

  abbrev enqueue_stored :
      (ParseMessageJob → String)
      → ℕ
      → RawMessage
      → Result Text × Disk
      → Queue
      → Result (ContentHash × ℕ) × Inbox
  enqueue_stored serialize now request (err e, d) q = (err e, record { disk = d; queue = q })
  enqueue_stored serialize now request (ok hash, d) q =
      let job : ParseMessageJob = record {
        account_id = request.account_id;
        place = request.place;
        content_hash = hash;
      } in
      let (r, q') = service_enqueue_raw now "parse_message" (serialize job) (pos 10) q in
      elim r [
        | err e ↦ (err e, record { disk = d; queue = q' })
        | ok id ↦ (ok (hash, id), record { disk = d; queue = q' })
      ]

  -- `ingest_raw`
  unfoldable pub ingest_raw :
      (ParseMessageJob → String) → ℕ → RawMessage → Inbox → Result (ContentHash × ℕ) × Inbox
  unfolding put_if_absent service_enqueue_raw
  ingest_raw serialize now request s =
      enqueue_stored serialize now request
        (put_if_absent o.decimal raw_root o.sha256 o.encrypt request.account_id request.raw_bytes
          s.disk)
        s.queue
