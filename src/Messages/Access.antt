-- ===== src/Messages/Access.antt =====
-- Laws of crates/core/src/message/service.rs: whose messages a user reads.
use mail_keep.Base.{
  ℕ, ◌≡◌, ◌≢◌, refl, Bool, true, ◌&&◌, Option, none, some, List, [], ◌∷◌, ◌==◌, In, All, All-In,
  In-map, ==_ne, &&-left, &&-right, Option-cases, inl, inr, arith,
}
use mail_keep.Sql.{ok, quiet, statement, query, raise, pure, read_only_transaction}
use mail_keep.Sql.Table.{select, find_first, find_first-matches}
use mail_keep.Sql.Order.{select-matches}
use mail_keep.Messages.Model.{Message, MessageAttachment}
use mail_keep.Messages.Locations.{is_in}
use mail_keep.Messages.Store.{
  Mail, MessageRow, in_owned_accounts, messages_of, find_message_for_user, list_by_ids_for_user,
}
use mail_keep.Messages.Attachments.{list_for_message}
use mail_keep.Messages.Record.{get_message_with_attachments, with_attachments, get_messages_by_ids}
use mail_keep.Messages.Listing.{Owns, in_owned_accounts-Owns, is_in_sound}

abbrev pub Read : Mail → ℕ → ℕ → Option (Message × List MessageAttachment) → Type 0
Read t user id none =
    find_first (λ r. r.message.id == id && in_owned_accounts t user r) t.messages ≡ none
Read t user id (some (m, attachments)) =
    Owns t user m × (m.id ≡ id) × All (λ a. a.message_id ≡ id) attachments

attachments_of_message :
    (id : ℕ) (rows : List MessageAttachment)
    → All (λ a. a.message_id ≡ id) (select (λ a. a.message_id == id) rows)
attachments_of_message id rows =
    All-In (λ a. a.message_id ≡ id) (select (λ a. a.message_id == id) rows)
      λ a h. ground (arith, select-matches (λ a. a.message_id == id) a rows h)

-- A user who asks for a message with its attachments gets one of an account of the user, with that id
-- and with attachments of that message only, or nothing when no row has the id and such an account.
-- The ids are not 0 and the database does not fail.
pub get_message_with_attachments_scope :
    (user id : ℕ) (t : Mail)
    → user ≢ 0
    → id ≢ 0
    → (o : Option (Message × List MessageAttachment)) × ((get_message_with_attachments user id
          (quiet t)).0
        ≡ ok o)
      × Read t user id o
unfolding get_message_with_attachments read_only_transaction with_attachments find_message_for_user
    list_for_message query statement raise pure
get_message_with_attachments_scope user id t nu ni =
    let p : MessageRow → Bool = λ r. r.message.id == id && in_owned_accounts t user r in
    elim (Option-cases (find_first p t.messages)) [
      | inl e ↦ (none, rw (==_ne user 0 nu, ==_ne id 0 ni, e) refl, e)
      | inr (r, e) ↦
          let found = find_first-matches p t.messages r e in
          let same : r.message.id ≡ id = ground (arith, &&-left (r.message.id == id) _ found) in
          (
            some (r.message, select (λ a. a.message_id == id) t.attachments),
            rw (==_ne user 0 nu, ==_ne id 0 ni, e, same, ==_ne id 0 ni) refl,
            (
              in_owned_accounts-Owns t user r (&&-right (r.message.id == id) _ found),
              same,
              attachments_of_message id t.attachments,
            ),
          )
    ]

abbrev pub Asked : Mail → ℕ → List ℕ → Message → Type 0
Asked t user ids m = Owns t user m × In m.id ids

asked :
    (t : Mail) (user : ℕ) (ids : List ℕ) (r : MessageRow)
    → (is_in ids r.message.id && in_owned_accounts t user r) ≡ true
    → Asked t user ids r.message
asked t user ids r h = (
  in_owned_accounts-Owns t user r (&&-right (is_in ids r.message.id) _ h),
  is_in_sound ids r.message.id (&&-left (is_in ids r.message.id) _ h),
)

along : (P : Message → Type 0) (m n : Message) → m ≡ n → P n → P m
along P m n e h = rw e h

-- Every message that a user gets by ids is of an account of the user and has one of the ids. The
-- user's id is not 0 and the database does not fail.
pub get_messages_by_ids_scope :
    (user : ℕ) (ids : List ℕ) (t : Mail)
    → user ≢ 0
    → (messages : List Message) × ((get_messages_by_ids user ids (quiet t)).0 ≡ ok messages)
      × All (Asked t user ids) messages
unfolding get_messages_by_ids read_only_transaction list_by_ids_for_user query statement raise pure
get_messages_by_ids_scope user [] t nu = ([], rw (==_ne user 0 nu) refl, _)
get_messages_by_ids_scope user (i ∷ ids) t nu =
    let p : MessageRow → Bool = λ r. is_in (i ∷ ids) r.message.id && in_owned_accounts t user r in
    (
      messages_of (select p t.messages),
      rw (==_ne user 0 nu) refl,
      All-In _ (messages_of (select p t.messages)) λ m h.
          let (r, k, e) = In-map (λ r. r.message) m (select p t.messages) h in
          let q = select-matches p r t.messages k in
          along (Asked t user (i ∷ ids)) m r.message e (asked t user (i ∷ ids) r q),
    )
