-- ===== src/Search/Backlog.antt =====
-- The messages that crates/search/src/indexer.rs has yet to index, in the rows of their table.
use mail_keep.Base.{
  ltb, Bool-cases, ℕ, ◌≤◌, ◌<◌, ◌≡◌, ◌⊎◌, refl, sym, ap, ◌∙◌, Bool, true, false, not, List, [], ◌∷◌,
  In, In-map, length, inl, inr, arith,
}
use mail_keep.Sql.Table.{select, matching, update_many, In-select}
use mail_keep.Sql.Order.{
  order_by, page, limit, length-order_by, length-select, In-limit, In-order_by, select-matches,
}
use mail_keep.Messages.Model.{Message}
use mail_keep.Messages.Locations.{is_in}
use mail_keep.Messages.Store.{MessageRow, messages_of}
use mail_keep.Search.Indexer.{batch}

-- how many messages are to be indexed
abbrev pub backlog : List MessageRow → ℕ
backlog rows = matching (λ r. not r.indexed) rows

abbrev pub marked : List ℕ → List MessageRow → List MessageRow
marked ids rows = update_many (λ r. is_in ids r.message.id) (λ r. record r { indexed = true }) rows

no_more_backlog : (ids : List ℕ) (rows : List MessageRow) → backlog (marked ids rows) ≤ backlog rows
no_more_backlog ids [] = omega arith
no_more_backlog ids (r ∷ rows) = ground (arith, no_more_backlog ids rows)

pub less_backlog :
    (ids : List ℕ) (r : MessageRow) (rows : List MessageRow)
    → In r rows
    → r.indexed ≡ false
    → is_in ids r.message.id ≡ true
    → backlog (marked ids rows) < backlog rows
less_backlog ids r [] h i p = absurd h
less_backlog ids r (x ∷ rows) (inl e) i p =
    let xi : x.indexed ≡ false = ap (λ y. y.indexed) (sym e) ∙ i in
    let xp : is_in ids x.message.id ≡ true = ap (λ y. is_in ids y.message.id) (sym e) ∙ p in
    ground (arith, xi, xp, no_more_backlog ids rows)
less_backlog ids r (x ∷ rows) (inr h) i p = ground (arith, less_backlog ids r rows h i p)

-- the messages of a batch, for the rows of the table
abbrev pub pending : List MessageRow → List Message
pending rows = messages_of (
    page batch 0
      (order_by (λ a b. ltb a.message.id b.message.id) (select (λ r. not r.indexed) rows)))

empty_batch : (rows : List MessageRow) → messages_of (limit batch rows) ≡ [] → length rows ≡ 0
empty_batch [] h = refl
empty_batch (r ∷ rows) h = ground (arith, h)

pub nothing_pending : (rows : List MessageRow) → pending rows ≡ [] → backlog rows ≡ 0
nothing_pending rows h =
    let unindexed = select (λ r. not r.indexed) rows in
    let before : MessageRow → MessageRow → Bool = λ a b. ltb a.message.id b.message.id in
    let none_left = empty_batch (order_by before unindexed) h in
    let size = length-order_by before unindexed in
    let count = length-select (λ r. not r.indexed) rows in sym count ∙ sym size ∙ none_left

pub pending_row :
    (rows : List MessageRow) (m : Message)
    → In m (pending rows)
    → (r : MessageRow) × In r rows × (r.indexed ≡ false) × (m ≡ r.message)
pending_row rows m h =
    let unindexed = select (λ r. not r.indexed) rows in
    let before : MessageRow → MessageRow → Bool = λ a b. ltb a.message.id b.message.id in
    let (r, i, e) = In-map (λ r. r.message) m (page batch 0 (order_by before unindexed)) h in
    let j = In-order_by before r unindexed (In-limit batch r (order_by before unindexed) i) in
    let q = select-matches (λ r. not r.indexed) r rows j in
    (r, In-select (λ r. not r.indexed) r rows j, ground (arith, q), e)

pub list_cases : {A : Type 0} (xs : List A) → (xs ≡ []) ⊎ ((y : A) × (ys : List A) × (xs ≡ y ∷ ys))
list_cases [] = inl refl
list_cases (y ∷ ys) = inr (y, ys, refl)

-- every row with the id of a message is the row of that message
abbrev pub Sole : Message → List MessageRow → Type 0
Sole m rows = (r : MessageRow) → In r rows → r.message.id ≡ m.id → r.message ≡ m

-- The rows are keyed by their message's id, the primary key of the table.
abbrev pub IsKeyed : List MessageRow → Type 0
IsKeyed rows =
    (r s : MessageRow) → In r rows → In s rows → r.message.id ≡ s.message.id → r.message ≡ s.message

-- a row of the message is to be indexed
abbrev pub Waits : Message → List MessageRow → Type 0
Waits m rows = (r : MessageRow) × In r rows × (r.indexed ≡ false) × (r.message ≡ m)

marked_row :
    (ids : List ℕ) (rows : List MessageRow) (s : MessageRow)
    → In s (marked ids rows)
    → (r : MessageRow) × In r rows × (s.message ≡ r.message)
marked_row ids [] s h = absurd h
marked_row ids (r ∷ rows) s (inl e) = elim (Bool-cases (is_in ids r.message.id)) [
  | inl q ↦ (r, inl refl, ap (λ x. x.message) (rw q at e))
  | inr q ↦ (r, inl refl, ap (λ x. x.message) (rw q at e))
]
marked_row ids (r ∷ rows) s (inr h) = let (x, i, e) = marked_row ids rows s h in (x, inr i, e)

pub marked-Sole :
    (ids : List ℕ) (m : Message) (rows : List MessageRow) → Sole m rows → Sole m (marked ids rows)
marked-Sole ids m rows h s i e =
    let (r, j, q) = marked_row ids rows s i in q ∙ h r j (ap (λ x. x.id) (sym q) ∙ e)

pub unmarked :
    (ids : List ℕ) (rows : List MessageRow) (r : MessageRow)
    → is_in ids r.message.id ≡ false
    → In r rows
    → In r (marked ids rows)
unmarked ids [] r q h = absurd h
unmarked ids (x ∷ rows) r q (inl e) =
    let k : is_in ids x.message.id ≡ false = ap (λ y. is_in ids y.message.id) (sym e) ∙ q in
    rw k (inl e)
unmarked ids (x ∷ rows) r q (inr h) = inr (unmarked ids rows r q h)

pub none_left_waiting : (m : Message) (rows : List MessageRow) → backlog rows ≡ 0 → ¬ Waits m rows
none_left_waiting m [] h (r, i, w, e) = i
none_left_waiting m (x ∷ rows) h (r, inl q, w, e) =
    let xw : x.indexed ≡ false = ap (λ y. y.indexed) (sym q) ∙ w in ground (arith, xw, h)
none_left_waiting m (x ∷ rows) h (r, inr i, w, e) =
    none_left_waiting m rows (ground (arith, h)) (r, i, w, e)
