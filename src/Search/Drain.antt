-- ===== src/Search/Drain.antt =====
-- Laws of crates/search/src/indexer.rs: the drain ends with every message in the index.
use mail_keep.Base.{ℕ, suc, ◌<◌, ◌≡◌, ◌⊎◌, Bool, Option, List, In, Text, String}
use mail_keep.Error.{blob_not_found}
use mail_keep.Sql.{Result, ok, err, quiet}
use mail_keep.Messages.Model.{Message, ContentHash}
use mail_keep.Messages.Store.{Mail, MessageRow}
use mail_keep.Search.Documents.{WriterLaws, documents_of, documents_of_all}
use mail_keep.Search.Indexer.{IndexDocument, Writer, Corpus}
use mail_keep.Search.Backlog.{backlog, Sole, Waits}

module _ (get : ℕ → ContentHash → Result Text) (extract_body : Text → Option Text)
    (fetches : (a : ℕ) (h : ContentHash)
      → ((raw : Text) × (get a h ≡ ok raw))
        ⊎ ((b : ℕ) × (s : String) × (get a h ≡ err (blob_not_found b s))))
    {X : Type 0} (writer : Writer X) (documents : X → List IndexDocument)
    (laws : WriterLaws writer documents) where
  abbrev docs_of : List Message → List (ℕ × IndexDocument)
  docs_of ms = documents_of_all get extract_body ms

  -- the index holds the document of the message, or a row of the message is to be indexed
  abbrev Kept : Message → IndexDocument → List MessageRow → X → Type 0
  Kept m d rows x = In d (documents x) ⊎ Waits m rows

  abbrev Progress : List MessageRow → X → List MessageRow → X → Type 0
  Progress rows x after y =
      (m : Message) (d : IndexDocument)
      → In d (documents_of get extract_body m)
      → Sole m rows
      → Kept m d rows x
      → Sole m after × Kept m d after y

  abbrev corpus : Mail → X → Bool → Corpus X
  corpus t x v = record { mail = quiet t; index = x; stale = v }

  -- one turn of the loop that found nothing, or left less to do
  abbrev Turn : Mail → X → Bool → Result ℕ × Corpus X → Type 0
  Turn t z v x =
      ((x.0 ≡ ok 0)
        × (x.1.mail.tables.messages ≡ t.messages)
        × (x.1.index ≡ z)
        × (backlog t.messages ≡ 0))
      ⊎ ((n : ℕ) × (u : Mail) × (y : X) × (x ≡ (ok (suc n), corpus u y v))
          × (backlog u.messages < backlog t.messages)
          × Progress t.messages z u.messages y)
