-- ===== src/Search/Indexer.antt =====
-- crates/search/src/indexer.rs: the drain of unindexed messages into the index, and `to_document` of
-- schema.rs. Tantivy's writer is a record of its calls, the raw storage (crates/storage) and the
-- extraction of a body are parameters. The version sidecar is `stale`, which says whether the schema
-- version on disk differs.
use mail_keep.Base.{
  ℕ, zero, suc, ℤ, Bool, false, Option, none, some, List, [], ◌∷◌, ◌++◌, if◌then◌else◌, length,
  Text, String,
}
use mail_keep.Error.{blob_not_found}
use mail_keep.Sql.{Result, ok, err, Tx, transaction, read_only_transaction}
use mail_keep.Messages.Model.{Message, ContentHash, NamedAddress}
use mail_keep.Messages.Store.{Mail, list_unindexed, mark_indexed, reset_all_indexed}

-- the document of a message, with the fields of the schema; texts that are joined by spaces are lists
pub record IndexDocument : Type 0 where
  pub message_id : ℕ
  pub account_id : ℕ
  pub has_attachments : Bool
  pub subject : Option String
  pub body : Text
  pub snippet : String
  pub from : List String
  pub to : List String
  pub sent_date : Option ℤ

abbrev name_part : Option String → List String
name_part none = []
name_part (some n) = n ∷ []

-- `from_text`
unfoldable pub from_text : Message → List String
from_text m = m.from_address ∷ name_part m.from_name

-- the loop of `to_text`
unfoldable pub address_parts : List NamedAddress → List String
address_parts [] = []
address_parts (a ∷ rest) = (a.address ∷ name_part a.name) ++ address_parts rest

-- `to_document`
unfoldable pub to_document : Message → Text → IndexDocument
unfolding from_text address_parts
to_document m body = record {
  message_id = m.id;
  account_id = m.account_id;
  has_attachments = m.has_attachments;
  subject = m.subject;
  body = body;
  snippet = m.snippet;
  from = from_text m;
  to = address_parts (m.to_addresses ++ m.cc_addresses);
  sent_date = m.sent_date;
}

-- the calls of Tantivy's writer
pub record Writer (X : Type 0) : Type 0 where
  pub delete_term : ℕ → X → X
  pub add_document : IndexDocument → X → Result (Unit {0}) × X
  pub delete_all_documents : X → Result (Unit {0}) × X
  pub commit : X → Result (Unit {0}) × X

-- what the indexer changes
pub record Corpus (X : Type 0) : Type 0 where
  pub mail : Tx Mail
  pub index : X
  pub stale : Bool

abbrev pub batch : ℕ
batch = 128

-- the ids and the documents of a batch
abbrev pub Batch : Type 0
Batch = List ℕ × List (ℕ × IndexDocument)

module _ (get : ℕ → ContentHash → Result Text) (extract_body : Text → Option Text) where
  abbrev with_id : ℕ → Result Batch → Result Batch
  with_id i (ok b) = ok (i ∷ b.0, b.1)
  with_id i (err e) = err e

  abbrev with_document : Message → Option Text → Result Batch → Result Batch
  with_document m (some body) (ok b) = ok (m.id ∷ b.0, (m.id, to_document m body) ∷ b.1)
  with_document m (some body) (err e) = err e
  with_document m none rest = with_id m.id rest

  -- the arms of the match on the blob of a message, before the rest of the batch
  unfoldable pub fetch_message : Message → Result Text → Result Batch → Result Batch
  unfolding to_document
  fetch_message m (ok raw) rest = with_document m (extract_body raw) rest
  fetch_message m (err (blob_not_found a h)) rest = with_id m.id rest
  fetch_message m (err e) rest = err e

  -- the loop of the fetch phase
  unfoldable pub fetch_messages : List Message → Result Batch
  unfolding fetch_message
  fetch_messages [] = ok ([], [])
  fetch_messages (m ∷ messages) =
      fetch_message m (get m.account_id m.content_hash) (fetch_messages messages)

  module _ {X : Type 0} (writer : Writer X) where
    -- the loop of `write_batch`, and its commit
    unfoldable pub write_batch : List (ℕ × IndexDocument) → X → Result (Unit {0}) × X
    write_batch [] x = writer.commit x
    write_batch ((i, doc) ∷ docs) x =
        let (r, x') = writer.add_document doc (writer.delete_term i x) in
        let rest = write_batch docs x' in elim r [ err e ↦ (err e, x') | ok _ ↦ rest ]

    -- the mark phase, after the write phase
    unfoldable pub mark_batch : List ℕ → Result (Unit {0}) × X → Corpus X → Result ℕ × Corpus X
    unfolding mark_indexed transaction
    mark_batch ids (err e, x) c = (err e, record c { index = x })
    mark_batch ids (ok _, x) c =
        let (r, mail) = transaction (mark_indexed ids) c.mail in
        elim r [
          | err e ↦ (err e, record c { mail = mail; index = x })
          | ok _ ↦ (ok (length ids), record c { mail = mail; index = x })
        ]

    -- the write phase and the mark phase
    unfoldable pub store_batch : Result Batch → Corpus X → Result ℕ × Corpus X
    unfolding write_batch mark_batch
    store_batch (err e) c = (err e, c)
    store_batch (ok b) c = mark_batch b.0 (write_batch b.1 c.index) c

    -- what `drain_once` does with the messages that it read
    unfoldable pub drain_messages : Result (List Message) → Corpus X → Result ℕ × Corpus X
    unfolding fetch_messages store_batch
    drain_messages (err e) c = (err e, c)
    drain_messages (ok []) c = (ok 0, c)
    drain_messages (ok (m ∷ messages)) c = store_batch (fetch_messages (m ∷ messages)) c

    -- `drain_once`
    unfoldable pub drain_once : Corpus X → Result ℕ × Corpus X
    unfolding drain_messages list_unindexed read_only_transaction
    drain_once c =
        let (r, mail) = read_only_transaction (list_unindexed batch) c.mail in
        drain_messages r (record c { mail = mail })

    abbrev pub drained_or :
        Result ℕ × Corpus X
        → Option (Result (Unit {0})) × Corpus X
        → Option (Result (Unit {0})) × Corpus X
    drained_or (err e, c) again = (some (err e), c)
    drained_or (ok zero, c) again = (some (ok tt), c)
    drained_or (ok (suc n), c) again = again

    -- the loop of `drain_to_empty` and of `reindex_to_idle`, which differ in what becomes of an error,
    -- on fuel; `none` is a loop that has not ended
    unfoldable pub drain : ℕ → Corpus X → Option (Result (Unit {0})) × Corpus X
    unfolding drain_once
    drain zero c = (none, c)
    drain (suc fuel) c = let x = drain_once c in let again = drain fuel x.1 in drained_or x again

    -- `clear_index`
    unfoldable pub clear_index : X → Result (Unit {0}) × X
    clear_index x =
        let (r, x') = writer.delete_all_documents x in
        elim r [ err e ↦ (err e, x') | ok _ ↦ writer.commit x' ]

    -- `reconcile_on_startup`, where writing the version does not fail
    unfoldable pub reconcile_on_startup : Corpus X → Result (Unit {0}) × Corpus X
    unfolding clear_index reset_all_indexed transaction
    reconcile_on_startup c =
        if c.stale
        then (let (cleared, x) = clear_index c.index in
            elim cleared [
              | err e ↦ (err e, record c { index = x })
              | ok _ ↦
                  let (reset, mail) = transaction reset_all_indexed c.mail in
                  elim reset [
                    | err e ↦ (err e, record c { mail = mail; index = x })
                    | ok _ ↦ (ok tt, record { mail = mail; index = x; stale = false })
                  ]
            ])
        else (ok tt, c)
