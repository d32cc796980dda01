-- ===== src/Messages/Listing.antt =====
-- Laws of crates/database/src/adapters/message.rs: what a search by folders lists.
use mail_keep.Base.{
  ℕ, ◌+◌, ◌≤◌, ◌≡◌, ◌≢◌, refl, sym, ap, ◌∙◌, true, false, ◌&&◌, List, [], ◌∷◌, ◌++◌, ◌↔◌, ◌==◌, all,
  In, All, All-In, any_found, any_nowhere, In-map, length-map, map-append, length, ==_ne, &&-left,
  &&-right, Bool-cases, inl, inr, arith,
}
use mail_keep.Sql.{ok, quiet, statement, query, raise, pure}
use mail_keep.Sql.Table.{select, matching}
use mail_keep.Sql.Order.{
  order_by, page, offset, In-limit, In-offset, In-order_by, length-limit, length-order_by,
  length-select, select-matches, page-append, limit_all,
}
use mail_keep.Accounts.{Account}
use mail_keep.Messages.Order.{UniqueIds, IsOrdered, Pairwise-select, order_by_unique}
use mail_keep.Messages.Model.{Message}
use mail_keep.Messages.Locations.{MessageLocation, is_in}
use mail_keep.Messages.Store.{
  Mail, MessageRow, in_owned_accounts, lies_in, is_listed, newer, messages_of,
  list_and_count_by_folders_for_user,
}

-- an account of the user holds the message
abbrev pub Owns : Mail → ℕ → Message → Type 0
Owns t user m = (a : Account) × In a t.accounts × (a.user_id ≡ user) × (m.account_id ≡ a.id)

-- the message lies in one of the folders
abbrev pub LiesIn : Mail → Message → List ℕ → Type 0
LiesIn t m folders =
    (l : MessageLocation) × In l t.locations × In l.folder_id folders × (m.id ≡ l.message_id)

-- what a search by folders may list: of the user's messages those that lie in a folder of each group
-- and in none of the excluded ones
abbrev pub Listed : Mail → ℕ → List (List ℕ) → List ℕ → Message → Type 0
Listed t user groups exclude m = Owns t user m × All (LiesIn t m) groups × (¬ LiesIn t m exclude)

pub is_in_sound : (ids : List ℕ) (i : ℕ) → is_in ids i ≡ true → In i ids
is_in_sound [] i h = ground (arith, h)
is_in_sound (x ∷ ids) i h = elim (Bool-cases (i == x)) [
  | inl e ↦ inl (ground (arith, e))
  | inr e ↦ inr (is_in_sound ids i (ground (arith, h, e)))
]

pub is_in_complete : (ids : List ℕ) (i : ℕ) → In i ids → is_in ids i ≡ true
is_in_complete [] i h = absurd h
is_in_complete (x ∷ ids) i (inl e) = ground (arith, e)
is_in_complete (x ∷ ids) i (inr h) = ground (arith, is_in_complete ids i h)

pub in_owned_accounts-Owns :
    (t : Mail) (user : ℕ) (r : MessageRow)
    → in_owned_accounts t user r ≡ true
    → Owns t user r.message
in_owned_accounts-Owns t user r h =
    let (a, i, e) =
      any_found (λ a. a.user_id == user && r.message.account_id == a.id) t.accounts h in
    (a, i, ground (arith, e), ground (arith, e))

lies_in-LiesIn :
    (t : Mail) (r : MessageRow) (folders : List ℕ)
    → lies_in t folders r ≡ true
    → LiesIn t r.message folders
lies_in-LiesIn t r folders h =
    let (l, i, e) =
      any_found (λ l. is_in folders l.folder_id && r.message.id == l.message_id) t.locations h in
    (l, i, is_in_sound folders l.folder_id (ground (arith, e)), ground (arith, e))

lies_nowhere :
    (t : Mail) (r : MessageRow) (folders : List ℕ)
    → lies_in t folders r ≡ false
    → ¬ LiesIn t r.message folders
lies_nowhere t r folders h (l, i, f, e) =
    let no_match =
      any_nowhere (λ l. is_in folders l.folder_id && r.message.id == l.message_id) l t.locations h
        i in
    ground (arith, no_match, is_in_complete folders l.folder_id f, e)

groups-All :
    (t : Mail) (r : MessageRow) (groups : List (List ℕ))
    → all (λ g. lies_in t g r) groups ≡ true
    → All (LiesIn t r.message) groups
groups-All t r [] h = _
groups-All t r (g ∷ groups) h = (
  lies_in-LiesIn t r g (&&-left (lies_in t g r) _ h),
  groups-All t r groups (&&-right (lies_in t g r) _ h),
)

is_listed-Listed :
    (t : Mail) (user : ℕ) (groups : List (List ℕ)) (exclude : List ℕ) (r : MessageRow)
    → is_listed t user groups exclude r ≡ true
    → Listed t user groups exclude r.message
unfolding is_listed
is_listed-Listed t user groups exclude r h =
    let rest = &&-right (in_owned_accounts t user r) _ h in
    let apart = &&-right (all (λ g. lies_in t g r) groups) _ rest in
    (
      in_owned_accounts-Owns t user r (&&-left (in_owned_accounts t user r) _ h),
      groups-All t r groups (&&-left (all (λ g. lies_in t g r) groups) _ rest),
      lies_nowhere t r exclude (ground (arith, apart)),
    )

-- the rows that one call returns
abbrev pub listed_page : Mail → ℕ → List (List ℕ) → List ℕ → ℕ → ℕ → List MessageRow
listed_page t user groups exclude n k =
    page n k (order_by newer (select (is_listed t user groups exclude) t.messages))

list_quiet :
    (user : ℕ) (groups : List (List ℕ)) (exclude : List ℕ) (n k : ℕ) (t : Mail)
    → user ≢ 0
    → list_and_count_by_folders_for_user user groups exclude n k (quiet t) ≡ (
      ok (
        matching (is_listed t user groups exclude) t.messages,
        messages_of (listed_page t user groups exclude n k),
      ),
      quiet t,
    )
unfolding list_and_count_by_folders_for_user query statement raise pure
list_quiet user groups exclude n k t nu = rw (==_ne user 0 nu) refl

pub page-Listed :
    (t : Mail) (user : ℕ) (groups : List (List ℕ)) (exclude : List ℕ) (n k : ℕ) (m : Message)
    → In m (messages_of (listed_page t user groups exclude n k))
    → Listed t user groups exclude m
page-Listed t user groups exclude n k m h =
    let listed = is_listed t user groups exclude in
    let ordered = order_by newer (select listed t.messages) in
    let (r, i, e) = In-map (λ r. r.message) m (listed_page t user groups exclude n k) h in
    let j =
      In-order_by newer r (select listed t.messages)
        (In-offset k r ordered (In-limit n r (offset k ordered) i)) in
    rw e (is_listed-Listed t user groups exclude r (select-matches listed r t.messages j))

-- A search by folders returns at most `limit` messages, each of them of the user, in a folder of each
-- required group and in no excluded folder. The user's id is not 0 and the database does not fail.
pub list_and_count_by_folders_for_user_scope :
    (user : ℕ) (groups : List (List ℕ)) (exclude : List ℕ) (limit offset : ℕ) (t : Mail)
    → user ≢ 0
    → (total : ℕ) × (messages : List Message) × ((list_and_count_by_folders_for_user user groups
          exclude limit offset
          (quiet t)).0
        ≡ ok (total, messages))
      × (length messages ≤ limit)
      × All (Listed t user groups exclude) messages
list_and_count_by_folders_for_user_scope user groups exclude n k t nu =
    let rows = listed_page t user groups exclude n k in
    let ordered = order_by newer (select (is_listed t user groups exclude) t.messages) in
    (
      _,
      messages_of rows,
      ap (λ x. x.0) (list_quiet user groups exclude n k t nu),
      omega (arith, length-map (λ r. r.message) rows, length-limit n (offset k ordered)),
      All-In (Listed t user groups exclude) (messages_of rows)
          (page-Listed t user groups exclude n k),
    )

-- However the database may answer the query with the rows in order, that is with each matching row once
-- and no later row newer by date and id, a search by folders gives the pages of that one list: each
-- page is a part of it, a second page goes on where the first ends, and the total with each page is
-- its length, with which one page has all of it. Ids are unique in the table, the user's id is not 0
-- and the database does not fail.
pub list_and_count_by_folders_for_user_pages :
    (user : ℕ) (groups : List (List ℕ)) (exclude : List ℕ) (m n offset : ℕ) (t : Mail)
    (answer : List MessageRow)
    → user ≢ 0
    → UniqueIds t.messages
    → UniqueIds answer
    → IsOrdered answer
    → ((r : MessageRow) → In r answer ↔ In r (select (is_listed t user groups exclude) t.messages))
    → let list = list_and_count_by_folders_for_user user groups exclude in
      let first = messages_of (page m offset answer) in
      let second = messages_of (page n (offset + m) answer) in
      let total = length answer in
      ((list m offset (quiet t)).0 ≡ ok (total, first))
      × ((list n (offset + m) (quiet t)).0 ≡ ok (total, second))
      × (first ++ second ≡ messages_of (page (m + n) offset answer))
      × ((list total 0 (quiet t)).0 ≡ ok (total, messages_of answer))
list_and_count_by_folders_for_user_pages user groups exclude m n k t answer nu keyed once o same =
    let listed = is_listed t user groups exclude in
    let rows = select listed t.messages in
    let one : order_by newer rows ≡ answer =
      order_by_unique answer rows (Pairwise-select _ listed t.messages keyed) once o same in
    let size : matching listed t.messages ≡ length answer =
      sym (length-select listed t.messages) ∙ sym (length-order_by newer rows) ∙ ap length one in
    let listing : (l j : ℕ)
        → (list_and_count_by_folders_for_user user groups exclude l j (quiet t)).0
          ≡ ok (length answer, messages_of (page l j answer)) =
      λ l j. rw (sym size, sym one) (ap (λ x. x.0) (list_quiet user groups exclude l j t nu)) in
    let everything = limit_all (length answer) answer refl in
    let whole =
      listing (length answer) 0 ∙ ap (λ l. ok (length answer, messages_of l)) everything in
    (
      listing m k,
      listing n (k + m),
      sym (map-append (λ r. r.message) (page m k answer) (page n (k + m) answer))
          ∙ ap messages_of (page-append m n k answer),
      whole,
    )
