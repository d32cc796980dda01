-- ===== src/Messages/Dedup.antt =====
-- Laws of crates/core/src/message/service.rs: a content that is archived already is found again.
use mail_keep.Base.{
  ℕ, ◌≡◌, ◌≢◌, refl, Bool, true, false, Option, none, some, List, [], ◌∷◌, ◌++◌, ◌==◌, text_eq_refl,
  Bool-cases, Option-cases, inl, inr, arith, ==_ne,
}
use mail_keep.Sql.{
  continue, Tx, Result, ok, err, statement, lift, query, raise, pure, ok_or, ◌>>=◌, quiet, rescue,
  on_constraint,
}
use mail_keep.Sql.Table.{find_first}
use mail_keep.Messages.Model.{
  ContentHash, NewMessageAttachmentRow, ParsedMessage, MessageAttachment,
}
use mail_keep.Messages.Store.{
  Mail, MessageRow, has_content, find_by_account_and_content_hash, create, insert_message, is_taken,
  message_of, message_row,
}
use mail_keep.Messages.Attachments.{create_attachment, create_attachments}
use mail_keep.Messages.Record.{
  Drawn, created_message, raced_message, create_or_none, match_created, message_and_created,
  new_message_row, attachment_rows,
}

abbrev pub content_in : Mail → ℕ → ContentHash → Option MessageRow
content_in t account hash = find_first (has_content account hash) t.messages

pub find_quiet :
    (account : ℕ) (hash : ContentHash) (t : Mail)
    → account ≢ 0
    → find_by_account_and_content_hash account hash (quiet t)
      ≡ (ok (message_row (content_in t account hash)), quiet t)
unfolding find_by_account_and_content_hash query statement raise
find_quiet account hash t na = rw (==_ne account 0 na) refl

refused_quiet :
    (drawn : Drawn) (account : ℕ) (parsed : ParsedMessage) (t : Mail)
    → account ≢ 0
    → is_taken (new_message_row drawn account parsed) t.messages ≡ true
    → create_or_none drawn account parsed (quiet t) ≡ (ok none, quiet t)
unfolding create_or_none create on_constraint rescue statement insert_message lift raise pure
    new_message_row
refused_quiet drawn account parsed t na h = rw (==_ne account 0 na, h) refl

inserted_quiet :
    (drawn : Drawn) (account : ℕ) (parsed : ParsedMessage) (t : Mail)
    → account ≢ 0
    → is_taken (new_message_row drawn account parsed) t.messages ≡ false
    → let row = message_of drawn.now (new_message_row drawn account parsed) in
      create_or_none drawn account parsed (quiet t)
      ≡ (ok (some row.message), quiet (record t { messages = t.messages ++ row ∷ [] }))
unfolding create_or_none create on_constraint rescue statement insert_message lift raise pure
    new_message_row
inserted_quiet drawn account parsed t na h = rw (==_ne account 0 na, h) refl

-- the tables but for the attachments
abbrev with_attachment_rows : Mail → List MessageAttachment → Mail
with_attachment_rows t l = record t { attachments = l }

abbrev AttachmentsOnly : {A : Type 0} → Mail → Result A × Tx Mail → Type 0
AttachmentsOnly t (r, s) = (l : List MessageAttachment) × (s ≡ quiet (with_attachment_rows t l))

attachment_quiet :
    (now : ℕ) (row : NewMessageAttachmentRow) (t : Mail)
    → AttachmentsOnly t (create_attachment now row (quiet t))
unfolding create_attachment statement raise
attachment_quiet now row t = elim (Bool-cases (row.message_id == 0)) [
  | inl e ↦ rw e (t.attachments, refl)
  | inr e ↦ elim (Bool-cases (row.account_id == 0)) [
    | inl k ↦ rw (e, k) (t.attachments, refl)
    | inr k ↦ rw (e, k) (_, refl)
  ]
]

attachments_end :
    (saved : MessageAttachment) (t : Mail) (r : Result (List MessageAttachment)) (s : Tx Mail)
    → AttachmentsOnly t (r, s)
    → AttachmentsOnly t (continue r (λ others. pure (saved ∷ others)) s)
unfolding pure
attachments_end saved t (ok others) s h = h
attachments_end saved t (err e) s h = h

attachments_step :
    (now : ℕ) (rows : List NewMessageAttachmentRow) (t : Mail)
    → ((u : Mail) → AttachmentsOnly u (create_attachments now rows (quiet u)))
    → (r : Result MessageAttachment) (s : Tx Mail) → AttachmentsOnly t (r, s)
    → AttachmentsOnly t
        (continue r (λ saved. do others ← create_attachments now rows; pure (saved ∷ others)) s)
unfolding pure
attachments_step now rows t ih (err e) s h = h
attachments_step now rows t ih (ok a) s (l, e) =
    let u = with_attachment_rows t l in
    let rest = create_attachments now rows (quiet u) in
    rw e (attachments_end a t rest.0 rest.1 (ih u))

attachments_quiet :
    (now : ℕ) (rows : List NewMessageAttachmentRow) (t : Mail)
    → AttachmentsOnly t (create_attachments now rows (quiet t))
unfolding create_attachments pure
attachments_quiet now [] t = (t.attachments, refl)
attachments_quiet now (row ∷ rows) t =
    let first = create_attachment now row (quiet t) in
    attachments_step now rows t (attachments_quiet now rows) first.0 first.1
      (attachment_quiet now row t)

-- what a finished match says: the content is in the tables, under the id that it returns
abbrev pub Archived : ℕ → ContentHash → Result (ℕ × Bool) × Tx Mail → Type 0
Archived account hash (ok x, s) =
    (u : Mail) × (w : MessageRow) × (s ≡ quiet u)
    × (content_in u account hash ≡ some w)
    × (w.message.id ≡ x.0)
Archived account hash (err e, s) = Unit

appended :
    (account : ℕ) (hash : ContentHash) (rows : List MessageRow) (m : MessageRow)
    → find_first (has_content account hash) rows ≡ none
    → has_content account hash m ≡ true
    → find_first (has_content account hash) (rows ++ m ∷ []) ≡ some m
appended account hash [] m h k = ground arith
appended account hash (r ∷ rows) m h k = ground (arith, appended account hash rows m)

own_content :
    (drawn : Drawn) (account : ℕ) (parsed : ParsedMessage)
    → has_content account parsed.content_hash
        (message_of drawn.now (new_message_row drawn account parsed))
      ≡ true
unfolding message_of new_message_row
own_content drawn account parsed = ground (arith, text_eq_refl parsed.content_hash)

created_end :
    (account : ℕ) (hash : ContentHash) (t : Mail) (w : MessageRow)
    (r : Result (List MessageAttachment)) (s : Tx Mail)
    → content_in t account hash ≡ some w
    → AttachmentsOnly t (r, s)
    → Archived account hash (continue r (λ _. pure (w.message.id, true)) s)
unfolding pure
created_end account hash t w (ok a) s h (l, e) = (with_attachment_rows t l, w, e, h, refl)
created_end account hash t w (err x) s h k = tt

unmatched :
    (drawn : Drawn) (account : ℕ) (parsed : ParsedMessage) (t : Mail)
    → account ≢ 0
    → content_in t account parsed.content_hash ≡ none
    → Archived account parsed.content_hash (message_and_created drawn account parsed none (quiet t))
unfolding message_and_created match_created raced_message created_message ok_or
unmatched drawn account parsed t na h =
    let row = message_of drawn.now (new_message_row drawn account parsed) in
    let u : Mail = record t { messages = t.messages ++ row ∷ [] } in
    elim (Bool-cases (is_taken (new_message_row drawn account parsed) t.messages)) [
      | inl e ↦
          rw
            (
              refused_quiet drawn account parsed t na e,
              find_quiet account parsed.content_hash t na,
              h,
            )
            tt
      | inr e ↦
          let rows = attachment_rows drawn row.message.id account 0 parsed.attachments in
          let made = create_attachments drawn.now rows (quiet u) in
          rw (inserted_quiet drawn account parsed t na e) (
            created_end account parsed.content_hash u row made.0 made.1
              (appended account parsed.content_hash t.messages row h
                (own_content drawn account parsed))
              (attachments_quiet drawn.now rows u))
    ]

pub matched :
    (drawn : Drawn) (account : ℕ) (parsed : ParsedMessage) (t : Mail)
    → account ≢ 0
    → Archived account parsed.content_hash (
        message_and_created drawn account parsed
          (message_row (content_in t account parsed.content_hash))
          (quiet t))
unfolding message_and_created pure
matched drawn account parsed t na = elim (Option-cases (content_in t account parsed.content_hash)) [
  | inl e ↦ rw e (unmatched drawn account parsed t na e)
  | inr (w, e) ↦ rw e (t, w, refl, e, refl)
]
