-- ===== src/Messages/Attachments.antt =====
-- crates/database/src/adapters/message_attachment.rs over the tables of messages. `now` is the clock's
-- value in the method.
use mail_keep.Base.{ℕ, ◌+◌, List, [], ◌∷◌, ◌++◌, ◌==◌, if◌then◌else◌}
use mail_keep.Error.{invalid_id}
use mail_keep.Sql.{Sql, pure, raise, statement, query, ◌>>=◌}
use mail_keep.Sql.Table.{select}
use mail_keep.Messages.Model.{MessageAttachment, NewMessageAttachmentRow}
use mail_keep.Messages.Store.{Mail}

-- the row that `create_many` inserts, after `before_save`
unfoldable pub attachment_of : ℕ → NewMessageAttachmentRow → MessageAttachment
attachment_of now row = record {
  id = row.id;
  version = 0 + 1;
  message_id = row.message_id;
  account_id = row.account_id;
  content_hash = row.content_hash;
  filename = row.filename;
  content_type = row.content_type;
  size_bytes = row.size_bytes;
  is_inline = row.is_inline;
  content_id = row.content_id;
  created_at = now;
  updated_at = now;
}

-- one turn of the loop in `create_many`
unfoldable pub create_attachment : ℕ → NewMessageAttachmentRow → Sql Mail MessageAttachment
unfolding attachment_of statement raise
create_attachment now row =
    if row.message_id == 0
    then raise (invalid_id row.message_id)
    else if row.account_id == 0
    then raise (invalid_id row.account_id)
    else statement (λ t. (
      attachment_of now row,
      record t { attachments = t.attachments ++ attachment_of now row ∷ [] },
    ))

-- `create_many`
unfoldable pub create_attachments :
    ℕ → List NewMessageAttachmentRow → Sql Mail (List MessageAttachment)
unfolding create_attachment pure
create_attachments now [] = pure []
create_attachments now (row ∷ rows) =
    let rest = create_attachments now rows in
    do saved ← create_attachment now row; others ← rest; pure (saved ∷ others)

-- `list_for_message`
unfoldable pub list_for_message : ℕ → Sql Mail (List MessageAttachment)
unfolding query raise
list_for_message id =
    if id == 0
    then raise (invalid_id id)
    else query (λ t. select (λ a. a.message_id == id) t.attachments)
