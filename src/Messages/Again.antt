-- ===== src/Messages/Again.antt =====
-- Laws of crates/core/src/message/service.rs: recording the same content again.
use mail_keep.Base.{
  ℕ, ◌≡◌, ◌≢◌, refl, sym, ◌∙◌, Bool, false, some, ◌==◌, Bool-cases, inl, inr, arith,
}
use mail_keep.Sql.{continue, Tx, Result, ok, err, pure, quiet, zoom, raise}
use mail_keep.Sql.Table.{find_first}
use mail_keep.Sql.Laws.{transaction-quiet, transaction_ok}
use mail_keep.Messages.Model.{ContentHash, ParsedMessage, RecordedMessage}
use mail_keep.Messages.Locations.{Locations, upsert, lies_at}
use mail_keep.Messages.Upsert.{upsert-quiet, after_upsert}
use mail_keep.Messages.Store.{has_content, Mail, MessageRow, message_row}
use mail_keep.Messages.Record.{
  Drawn, Place, place_message, message_and_created, record_body, record_parsed_message,
  location_row,
}
use mail_keep.Messages.Dedup.{Archived, matched, find_quiet, content_in}

abbrev with_locations : Mail → Locations → Mail
with_locations t l = record t { locations = l }

placed :
    (drawn : Drawn) (place : Place) (x : ℕ × Bool) (t : Mail)
    → x.0 ≢ 0
    → place.folder_id ≢ 0
    → (l : Locations) × (place_message drawn place x (quiet t)
        ≡ (ok (record { message_id = x.0; created = x.1 }), quiet (with_locations t l)))
unfolding place_message zoom pure location_row
placed drawn place x t nm nf =
    let new = location_row drawn place x.0 in
    (
      after_upsert drawn.now new (find_first (lies_at x.0 place.folder_id) t.locations) t.locations,
      rw (upsert-quiet drawn.now new t.locations nm nf) refl,
    )

-- a location that is written has ids that are not 0
placed_ids :
    (drawn : Drawn) (place : Place) (x : ℕ × Bool) (t : Mail) (r : RecordedMessage)
    → (place_message drawn place x (quiet t)).0 ≡ ok r
    → (x.0 ≢ 0) × (place.folder_id ≢ 0)
unfolding place_message zoom pure location_row upsert raise
placed_ids drawn place x t r h = (
  λ e. ground (arith, h, e),
  λ e. elim (Bool-cases (x.0 == 0)) [
    | inl k ↦ ground (arith, h, k)
    | inr k ↦ ground (arith, h, e, k)
  ],
)

abbrev IsRecorded : ℕ → ContentHash → RecordedMessage → Result RecordedMessage × Tx Mail → Type 0
IsRecorded account hash r x =
    (u : Mail) × (w : MessageRow) × (x ≡ (ok r, quiet u))
    × (content_in u account hash ≡ some w)
    × (w.message.id ≡ r.message_id)
    × (r.message_id ≢ 0)

id_of :
    (x : ℕ × Bool) (r : RecordedMessage)
    → ok (record { message_id = x.0; created = x.1 }) ≡ ok r
    → (x.0 ≡ r.message_id)
id_of x r h = ground (arith, h)

end-IsRecorded :
    (drawn : Drawn) (place : Place) (account : ℕ) (hash : ContentHash) (r : RecordedMessage)
    (x : Result (ℕ × Bool)) (s : Tx Mail)
    → Archived account hash (x, s)
    → (continue x (place_message drawn place) s).0 ≡ ok r
    → IsRecorded account hash r (continue x (place_message drawn place) s)
end-IsRecorded drawn place account hash r (err e) s a h = ground (arith, h)
end-IsRecorded drawn place account hash r (ok x) s (t, w, q, f, i) h =
    let k : (place_message drawn place x (quiet t)).0 ≡ ok r = rw q at h in
    let (nm, nf) = placed_ids drawn place x t r k in
    let (l, p) = placed drawn place x t nm nf in
    let same : ok (record { message_id = x.0; created = x.1 }) ≡ ok r = rw p at k in
    let id = id_of x r same in
    (with_locations t l, w, rw (q, p, same) refl, f, i ∙ id, λ z. nm (id ∙ z))

record_body-IsRecorded :
    (drawn : Drawn) (account : ℕ) (place : Place) (parsed : ParsedMessage) (t : Mail)
    (r : RecordedMessage)
    → account ≢ 0
    → (record_body drawn account place parsed (quiet t)).0 ≡ ok r
    → IsRecorded account parsed.content_hash r (record_body drawn account place parsed (quiet t))
unfolding record_body
record_body-IsRecorded drawn account place parsed t r na h =
    let o = message_row (content_in t account parsed.content_hash) in
    let m = message_and_created drawn account parsed o (quiet t) in
    let k : (continue m.0 (place_message drawn place) m.1).0 ≡ ok r =
      rw (find_quiet account parsed.content_hash t na) at h in
    rw (find_quiet account parsed.content_hash t na) (
      end-IsRecorded drawn place account parsed.content_hash r m.0 m.1
        (matched drawn account parsed t na) k)

-- the body for a content that is in the tables
found_again :
    (drawn : Drawn) (account : ℕ) (place : Place) (parsed : ParsedMessage) (u : Mail)
    (w : MessageRow)
    → account ≢ 0
    → place.folder_id ≢ 0
    → w.message.id ≢ 0
    → content_in u account parsed.content_hash ≡ some w
    → (l : Locations) × (record_body drawn account place parsed (quiet u)
        ≡ (ok (record { message_id = w.message.id; created = false }), quiet (with_locations u l)))
unfolding record_body message_and_created pure
found_again drawn account place parsed u w na nf nw h =
    let (l, p) = placed drawn place (w.message.id, false) u nw nf in
    (l, rw (find_quiet account parsed.content_hash u na, h) p)

-- Whoever records a content of an account again gets the message of the first time, as not created,
-- and no message and no attachment is added. The second call names a folder, the account's id is not
-- 0, the first call succeeded and the database does not fail.
pub record_parsed_message_again :
    (drawn drawn' : Drawn) (account : ℕ) (place place' : Place) (parsed parsed' : ParsedMessage)
    (t : Mail) (r : RecordedMessage)
    → account ≢ 0
    → place'.folder_id ≢ 0
    → parsed'.content_hash ≡ parsed.content_hash
    → (record_parsed_message drawn account place parsed (quiet t)).0 ≡ ok r
    → let first = record_parsed_message drawn account place parsed (quiet t) in
      let again = record_parsed_message drawn' account place' parsed' first.1 in
      (again.0 ≡ ok (record { message_id = r.message_id; created = false }))
      × (again.1.tables.messages ≡ first.1.tables.messages)
      × (again.1.tables.attachments ≡ first.1.tables.attachments)
unfolding record_parsed_message
record_parsed_message_again drawn drawn' account place place' parsed parsed' t r na nf same h =
    let body = record_body drawn account place parsed in
    let (u, w, e, f, i, nr) =
      record_body-IsRecorded drawn account place parsed t r na (transaction_ok body t r h) in
    let (l, p) =
      found_again drawn' account place' parsed' u w na nf (λ z. nr (sym i ∙ z)) (rw same f) in
    let second = transaction-quiet (record_body drawn' account place' parsed') u _ _ p in
    rw (transaction-quiet body t u r e, second, i) (refl, refl, refl)

-- A call that succeeds leaves a message of the content in the tables, under the id that it returns.
pub record_parsed_message-has_content :
    (drawn : Drawn) (account : ℕ) (place : Place) (parsed : ParsedMessage) (t : Mail)
    (r : RecordedMessage)
    → account ≢ 0
    → (record_parsed_message drawn account place parsed (quiet t)).0 ≡ ok r
    → (w : MessageRow) × (find_first
          (has_content account parsed.content_hash)
          (record_parsed_message drawn account place parsed (quiet t)).1.tables.messages
        ≡ some w)
      × (w.message.id ≡ r.message_id)
unfolding record_parsed_message
record_parsed_message-has_content drawn account place parsed t r na h =
    let body = record_body drawn account place parsed in
    let (u, w, e, f, i, nr) =
      record_body-IsRecorded drawn account place parsed t r na (transaction_ok body t r h) in
    (w, rw (transaction-quiet body t u r e) f, i)
