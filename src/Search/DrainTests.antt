-- ===== src/Search/DrainTests.antt =====
-- The drain at a concrete input: two messages, of which one has lost its blob.
use mail_keep.Base.{
  ℕ, ◌≡◌, refl, map, not, false, none, some, Option, List, [], ◌∷◌, Text, ◌==◌, if◌then◌else◌,
}
use mail_keep.Error.{blob_not_found}
use mail_keep.Sql.{
  Result, ok, err, quiet, read_only_transaction, query, statement, transaction, finish,
}
use mail_keep.Messages.Model.{ContentHash}
use mail_keep.Messages.Store.{Mail, MessageRow, list_unindexed, mark_indexed}
use mail_keep.Search.Indexer.{
  IndexDocument, Writer, Corpus, write_batch, drain, drain_once, drain_messages, store_batch,
  mark_batch, fetch_messages, fetch_message, to_document,
}
use mail_keep.Sql.Table.{select}

abbrev a_body : Text → Option Text
a_body raw = some raw

-- the blobs of the first account are there
abbrev blobs : ℕ → ContentHash → Result Text
blobs a h = if a == 1 then ok h else err (blob_not_found a "hash")

-- a writer over the list of the documents, the latest first
abbrev listing : Writer (List IndexDocument)
listing = record {
  delete_term = λ i x. select (λ d. not (d.message_id == i)) x;
  add_document = λ d x. (ok tt, d ∷ x);
  delete_all_documents = λ x. (ok tt, []);
  commit = λ x. (ok tt, x);
}

abbrev all_of : List IndexDocument → List IndexDocument
all_of x = x

abbrev waiting : ℕ → ℕ → MessageRow
waiting id account = record {
  message = record {
    id = id;
    version = 1;
    account_id = account;
    rfc822_message_id = "x@y";
    content_hash = id ∷ [];
    subject = none;
    from_address = "a@b";
    from_name = none;
    to_addresses = [];
    cc_addresses = [];
    bcc_addresses = [];
    reply_to_addresses = [];
    sent_date = none;
    in_reply_to = none;
    references = [];
    snippet = "hi";
    size_bytes = 100;
    has_attachments = false;
    attachment_count = 0;
    created_at = 30;
    updated_at = 30;
  };
  indexed = false;
}

abbrev two_waiting : Mail
two_waiting = record {
  accounts = [];
  messages = waiting 31 1 ∷ waiting 32 2 ∷ [];
  attachments = [];
  locations = [];
}

abbrev drained_two : Option (Result (Unit {0})) × Corpus (List IndexDocument)
drained_two =
    drain blobs a_body listing 3 (record { mail = quiet two_waiting; index = []; stale = false })

-- the message whose blob is lost has no document
one_indexed : map (λ d. d.message_id) drained_two.1.index ≡ 31 ∷ []
unfolding drain drain_once drain_messages store_batch mark_batch write_batch fetch_messages
    fetch_message to_document list_unindexed read_only_transaction query statement transaction
    mark_indexed finish
one_indexed = refl
