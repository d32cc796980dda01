-- ===== src/Search/Documents.antt =====
-- What a batch of crates/search/src/indexer.rs adds to the index: the documents of its messages.
use mail_keep.Base.{
  ℕ, ◌≡◌, ◌⊎◌, refl, sym, ap, ◌∙◌, true, not, Bool, Option, none, some, List, [], ◌∷◌, ◌++◌, ◌==◌,
  map, In, In-append_cases, In-map, In-append_left, In-append_right, Text, String, inl, inr, arith,
  Bool-cases, Option-cases,
}
use mail_keep.Error.{blob_not_found}
use mail_keep.Sql.{Result, ok, err}
use mail_keep.Sql.Table.{select}
use mail_keep.Messages.Model.{Message, ContentHash}
use mail_keep.Search.Indexer.{
  IndexDocument, to_document, Writer, fetch_message, fetch_messages, write_batch,
}

-- What Tantivy's writer does, where nothing fails, to the documents that the index holds after the
-- next commit.
pub record WriterLaws {X : Type 0} (writer : Writer X) (documents : X → List IndexDocument)
    : Type 0 where
  pub deletes :
      (i : ℕ) (x : X)
      → documents (writer.delete_term i x) ≡ select (λ d. not (d.message_id == i)) (documents x)
  pub adds :
      (d : IndexDocument) (x : X)
      → (y : X) × (writer.add_document d x ≡ (ok tt, y)) × (documents y ≡ d ∷ documents x)
  pub commits : (x : X) → (y : X) × (writer.commit x ≡ (ok tt, y)) × (documents y ≡ documents x)

module _ {A : Type 0} where
  map-In : {B : Type 0} (f : A → B) (a : A) (xs : List A) → In a xs → In (f a) (map f xs)
  map-In f a [] h = absurd h
  map-In f a (x ∷ xs) (inl e) = inl (ap f e)
  map-In f a (x ∷ xs) (inr h) = inr (map-In f a xs h)

  select-In : (p : A → Bool) (a : A) (xs : List A) → In a xs → p a ≡ true → In a (select p xs)
  select-In p a [] h e = absurd h
  select-In p a (x ∷ xs) (inl q) e = let k : p x ≡ true = ap p (sym q) ∙ e in rw k (inl q)
  select-In p a (x ∷ xs) (inr h) e = elim (Bool-cases (p x)) [
    | inl k ↦ rw k (inr (select-In p a xs h e))
    | inr k ↦ rw k (select-In p a xs h e)
  ]

module _ (get : ℕ → ContentHash → Result Text) (extract_body : Text → Option Text) where
  abbrev of_body : Message → Option Text → List IndexDocument
  of_body m none = []
  of_body m (some body) = to_document m body ∷ []

  abbrev of_blob : Message → Result Text → List IndexDocument
  of_blob m (ok raw) = of_body m (extract_body raw)
  of_blob m (err e) = []

  -- the document of a message: one, where its blob is read and a body is extracted
  abbrev pub documents_of : Message → List IndexDocument
  documents_of m = of_blob m (get m.account_id m.content_hash)

  -- the documents of a batch, each with its message's id
  abbrev pub documents_of_all : List Message → List (ℕ × IndexDocument)
  documents_of_all [] = []
  documents_of_all (m ∷ ms) = map (λ d. (m.id, d)) (documents_of m) ++ documents_of_all ms

  pub one_document :
      (m : Message) (d e : IndexDocument)
      → In d (documents_of m)
      → In e (documents_of m)
      → (d ≡ e) × (d.message_id ≡ m.id)
  unfolding to_document
  one_document m d e h k = from_blob (get m.account_id m.content_hash) h k
    where
      from_body :
          (b : Option Text)
          → In d (of_body m b)
          → In e (of_body m b)
          → (d ≡ e) × (d.message_id ≡ m.id)
      from_body none h k = absurd h
      from_body (some body) (inl p) (inl q) = (p ∙ sym q, ap (λ x. x.message_id) p)
      from_body (some body) (inr p) k = absurd p
      from_body (some body) (inl p) (inr q) = absurd q

      from_blob :
          (r : Result Text)
          → In d (of_blob m r)
          → In e (of_blob m r)
          → (d ≡ e) × (d.message_id ≡ m.id)
      from_blob (ok raw) h k = from_body (extract_body raw) h k
      from_blob (err x) h k = absurd h

  pub of_some :
      (ms : List Message) (i : ℕ) (d : IndexDocument)
      → In (i, d) (documents_of_all ms)
      → (m : Message) × In m ms × (i ≡ m.id) × In d (documents_of m)
  of_some [] i d h = absurd h
  of_some (m ∷ ms) i d h =
      elim (In-append_cases (i, d) (map (λ e. (m.id, e)) (documents_of m)) (documents_of_all ms)
        h) [
          | inl k ↦
              let (e, j, q) = In-map (λ e. (m.id, e)) (i, d) (documents_of m) k in
              (m, inl refl, ap (λ p. p.0) q, rw (ap (λ p. p.1) q) j)
          | inr k ↦ let (n, j, e, q) = of_some ms i d k in (n, inr j, e, q)
        ]

  pub of_each :
      (ms : List Message) (m : Message) (d : IndexDocument)
      → In m ms
      → In d (documents_of m)
      → In (m.id, d) (documents_of_all ms)
  of_each [] m d h k = absurd h
  of_each (n ∷ ms) m d (inl e) k =
      In-append_left (m.id, d) (map (λ e. (n.id, e)) (documents_of n)) (documents_of_all ms)
        (rw (sym e) (map-In (λ e. (m.id, e)) d (documents_of m) k))
  of_each (n ∷ ms) m d (inr h) k =
      In-append_right (m.id, d) (map (λ e. (n.id, e)) (documents_of n)) (documents_of_all ms)
        (of_each ms m d h k)

  module _
      (fetches : (a : ℕ) (h : ContentHash)
        → ((raw : Text) × (get a h ≡ ok raw))
          ⊎ ((b : ℕ) × (s : String) × (get a h ≡ err (blob_not_found b s)))) where
    fetched :
        (m : Message) (x : Result Text) (ids : List ℕ) (docs : List (ℕ × IndexDocument))
        → ((raw : Text) × (x ≡ ok raw)) ⊎ ((b : ℕ) × (s : String) × (x ≡ err (blob_not_found b s)))
        → fetch_message get extract_body m x (ok (ids, docs))
          ≡ ok (m.id ∷ ids, map (λ d. (m.id, d)) (of_blob m x) ++ docs)
    unfolding fetch_message
    fetched m x ids docs (inl (raw, e)) = elim (Option-cases (extract_body raw)) [
      | inl q ↦ rw (e, q) refl
      | inr (body, q) ↦ rw (e, q) refl
    ]
    fetched m x ids docs (inr (b, s, e)) = rw e refl

    -- The fetch phase marks every message of a batch, and makes the documents of those that have one.
    pub fetch_messages_lem :
        (ms : List Message)
        → fetch_messages get extract_body ms ≡ ok (map (λ m. m.id) ms, documents_of_all ms)
    unfolding fetch_messages
    fetch_messages_lem [] = refl
    fetch_messages_lem (m ∷ ms) = rw (fetch_messages_lem ms) (
        fetched m (get m.account_id m.content_hash) (map (λ m. m.id) ms) (documents_of_all ms)
          (fetches m.account_id m.content_hash))

  module _ {X : Type 0} (writer : Writer X) (documents : X → List IndexDocument)
      (laws : WriterLaws writer documents) where
    -- The write phase does not fail.
    pub write_batch_ok :
        (docs : List (ℕ × IndexDocument)) (x : X)
        → (y : X) × (write_batch get extract_body writer docs x ≡ (ok tt, y))
    unfolding write_batch
    write_batch_ok [] x = let (y, e, d) = laws.commits x in (y, e)
    write_batch_ok ((i, doc) ∷ docs) x =
        let (y, e, d) = laws.adds doc (writer.delete_term i x) in
        let (z, q) = write_batch_ok docs y in (z, rw (write_batch, e) (rw e q))

    -- every document that a list has for one id is the same
    abbrev pub Only : ℕ → IndexDocument → List (ℕ × IndexDocument) → Type 0
    Only i doc docs = (e : IndexDocument) → In (i, e) docs → e ≡ doc

    after_add :
        (i : ℕ) (doc new : IndexDocument) (j : ℕ) (x y : X)
        → doc.message_id ≡ i
        → documents y ≡ new ∷ documents (writer.delete_term j x)
        → (j ≡ i → new ≡ doc)
        → In doc (documents x)
        → In doc (documents y)
    after_add i doc new j x y own d only h = elim (Bool-cases (j == i)) [
      | inl e ↦ rw d (inl (sym (only (ground (arith, e)))))
      | inr e ↦
          rw (d, laws.deletes j x)
            (inr (
              select-In (λ d. not (d.message_id == j)) doc (documents x) h
                (ground (arith, e, own))))
    ]

    -- a batch keeps a document, unless it has another one for the same message
    pub write_batch-keeps :
        (i : ℕ) (doc : IndexDocument) (docs : List (ℕ × IndexDocument)) (x : X)
        → doc.message_id ≡ i
        → Only i doc docs
        → In doc (documents x)
        → In doc (documents (write_batch get extract_body writer docs x).1)
    unfolding write_batch
    write_batch-keeps i doc [] x own only h =
        let (y, e, d) = laws.commits x in rw (ap (λ r. r.1) e, d) h
    write_batch-keeps i doc ((j, new) ∷ docs) x own only h =
        let (y, e, d) = laws.adds new (writer.delete_term j x) in
        let here = after_add i doc new j x y own d (λ q. only new (inl (rw q refl))) h in
        rw (write_batch, e) (rw e (write_batch-keeps i doc docs y own (λ n k. only n (inr k)) here))

    -- a batch leaves its documents in the index
    pub write_batch-holds :
        (i : ℕ) (doc : IndexDocument) (docs : List (ℕ × IndexDocument)) (x : X)
        → doc.message_id ≡ i
        → Only i doc docs
        → In (i, doc) docs
        → In doc (documents (write_batch get extract_body writer docs x).1)
    unfolding write_batch
    write_batch-holds i doc [] x own only h = absurd h
    write_batch-holds i doc ((j, new) ∷ docs) x own only (inl q) =
        let (y, e, d) = laws.adds new (writer.delete_term j x) in
        let here : In doc (documents y) = rw d (inl (ap (λ p. p.1) q)) in
        rw (write_batch, e) (rw e (write_batch-keeps i doc docs y own (λ n k. only n (inr k)) here))
    write_batch-holds i doc ((j, new) ∷ docs) x own only (inr h) =
        let (y, e, d) = laws.adds new (writer.delete_term j x) in
        rw (write_batch, e) (rw e (write_batch-holds i doc docs y own (λ n k. only n (inr k)) h))
