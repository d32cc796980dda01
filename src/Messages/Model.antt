-- ===== src/Messages/Model.antt =====
-- crates/core/src/message/model and the rows of crates/core/src/message/repository.rs. A token is a
-- function of its id. An instant is its distance from the epoch in the database's unit, signed for
-- the date that a sender wrote.
use mail_keep.Base.{ℕ, ℤ, String, Bool, Option, List, Text}

-- `ContentHash`: the 32 bytes of a SHA-256
abbrev pub ContentHash : Type 0
ContentHash = Text

-- `NamedAddress`
pub record NamedAddress : Type 0 where
  pub address : String
  pub name : Option String

-- `Message`
pub record Message : Type 0 where
  pub id : ℕ
  pub version : ℕ
  pub account_id : ℕ
  pub rfc822_message_id : String
  pub content_hash : ContentHash
  pub subject : Option String
  pub from_address : String
  pub from_name : Option String
  pub to_addresses : List NamedAddress
  pub cc_addresses : List NamedAddress
  pub bcc_addresses : List NamedAddress
  pub reply_to_addresses : List NamedAddress
  pub sent_date : Option ℤ
  pub in_reply_to : Option String
  pub references : List String
  pub snippet : String
  pub size_bytes : ℕ
  pub has_attachments : Bool
  pub attachment_count : ℕ
  pub created_at : ℕ
  pub updated_at : ℕ

-- `RecordedMessage`
pub record RecordedMessage : Type 0 where
  pub message_id : ℕ
  pub created : Bool

-- `NewMessageRow`, with the id that its token holds
pub record NewMessageRow : Type 0 where
  pub id : ℕ
  pub account_id : ℕ
  pub rfc822_message_id : String
  pub content_hash : ContentHash
  pub subject : Option String
  pub from_address : String
  pub from_name : Option String
  pub to_addresses : List NamedAddress
  pub cc_addresses : List NamedAddress
  pub bcc_addresses : List NamedAddress
  pub reply_to_addresses : List NamedAddress
  pub sent_date : Option ℤ
  pub in_reply_to : Option String
  pub references : List String
  pub snippet : String
  pub size_bytes : ℕ
  pub has_attachments : Bool
  pub attachment_count : ℕ

-- `MessageAttachment`
pub record MessageAttachment : Type 0 where
  pub id : ℕ
  pub version : ℕ
  pub message_id : ℕ
  pub account_id : ℕ
  pub content_hash : ContentHash
  pub filename : Option String
  pub content_type : String
  pub size_bytes : ℕ
  pub is_inline : Bool
  pub content_id : Option String
  pub created_at : ℕ
  pub updated_at : ℕ

-- `NewMessageAttachmentRow`, with the id that its token holds
pub record NewMessageAttachmentRow : Type 0 where
  pub id : ℕ
  pub message_id : ℕ
  pub account_id : ℕ
  pub content_hash : ContentHash
  pub filename : Option String
  pub content_type : String
  pub size_bytes : ℕ
  pub is_inline : Bool
  pub content_id : Option String

-- `ParsedAttachment`
pub record ParsedAttachment : Type 0 where
  pub content_hash : ContentHash
  pub filename : Option String
  pub content_type : String
  pub size_bytes : ℕ
  pub is_inline : Bool
  pub content_id : Option String

-- `ParsedMessage`
pub record ParsedMessage : Type 0 where
  pub rfc822_message_id : String
  pub content_hash : ContentHash
  pub subject : Option String
  pub from_address : String
  pub from_name : Option String
  pub to_addresses : List NamedAddress
  pub cc_addresses : List NamedAddress
  pub bcc_addresses : List NamedAddress
  pub reply_to_addresses : List NamedAddress
  pub sent_date : Option ℤ
  pub in_reply_to : Option String
  pub references : List String
  pub snippet : String
  pub size_bytes : ℕ
  pub attachments : List ParsedAttachment
