-- ===== src/Search/Answers.antt =====
-- Laws of crates/search/src/service.rs: what the phases of a search answer.
use mail_keep.Base.{
  ℕ, ◌≤◌, ◌≡◌, refl, sym, ap, ◌∙◌, Bool, true, false, Option, none, some, List, [], ◌∷◌, ◌++◌, map,
  ◌==◌, In, All, All-In, In-map, length, length-map, inl, inr, arith,
}
use mail_keep.Sql.{Result, ok, err, read_only_transaction, query}
use mail_keep.Sql.Table.{select, In-select}
use mail_keep.Sql.Order.{order_by, offset, length-limit}
use mail_keep.Sql.Reads.{
  Reads, pure-Reads, raise-Reads, query-Reads, if-Reads, read_only_transaction-Reads, bind-Reads,
  zoom-Reads,
}
use mail_keep.Accounts.{Account}
use mail_keep.Accounts.Store.{list_for_user}
use mail_keep.Folders.Store.{list_for_account}
use mail_keep.Messages.Locations.{is_in, filter_message_ids_in_folders}
use mail_keep.Messages.Store.{list_and_count_by_folders_for_user, is_listed, messages_of, newer}
use mail_keep.Messages.Listing.{page-Listed, listed_page}
use mail_keep.Search.Compile.{Document}
use mail_keep.Search.Service.{
  SearchHit, SearchResults, Archive, no_results, on_mail, on_folders, on_locations, scoped_folders,
  list_folders, hit_of_message, hit_of, hits_of, push_hit, keep_ids, post_filter,
}

-- an account of the user holds the message of the hit
abbrev pub IsUsers : Archive → ℕ → SearchHit → Type 0
IsUsers t user h = (a : Account) × In a t.mail.accounts × (a.user_id ≡ user) × (h.account_id ≡ a.id)

-- at most `n` hits, all of them the user's
abbrev pub ArePage : Archive → ℕ → ℕ → SearchResults → Type 0
ArePage t user n r = (length r.hits ≤ n) × All (IsUsers t user) r.hits

-- the accounts that a list of ids is of
abbrev pub AreOwned : Archive → ℕ → List ℕ → Type 0
AreOwned t user scope =
    (i : ℕ) → In i scope → (a : Account) × In a t.mail.accounts × (a.user_id ≡ user) × (i ≡ a.id)

along : (P : SearchHit → Type 0) (h g : SearchHit) → h ≡ g → P g → P h
along P h g e p = rw e p

module _ (t : Archive) where
  pub list_for_user-Reads :
      (user : ℕ)
      → Reads t.mail.accounts
          (λ rows. rows ≡ select (λ a. a.user_id == user) t.mail.accounts)
          (list_for_user user)
  unfolding list_for_user
  list_for_user-Reads user =
      query-Reads t.mail.accounts _ (λ rows. select (λ a. a.user_id == user) rows) refl

  folders-Reads : (i : ℕ) → Reads t.folders (λ _. Unit {0}) (list_for_account i)
  unfolding list_for_account
  folders-Reads i =
      if-Reads t.folders _ (i == 0) _ _ (raise-Reads t.folders _ _) (query-Reads t.folders _ _ tt)

  pub scoped_folders-Reads : (scope : List ℕ) → Reads t (λ _. Unit {0}) (scoped_folders scope)
  unfolding scoped_folders
  scoped_folders-Reads [] = pure-Reads t _ [] tt
  scoped_folders-Reads (i ∷ scope) =
      bind-Reads t (λ _. Unit {0}) _ (on_folders (list_for_account i)) _
        (zoom-Reads t (λ t. t.folders) (λ x t. record t { folders = x }) _ (list_for_account i) refl
          (folders-Reads i))
        λ fs _.
          bind-Reads t (λ _. Unit {0}) _ (scoped_folders scope) _ (scoped_folders-Reads scope)
            λ others _. pure-Reads t _ (fs ++ others) tt

  -- the folder listing
  listing-Reads :
      (user : ℕ) (groups : List (List ℕ)) (exclude : List ℕ) (n k : ℕ)
      → Reads t.mail
          (λ x. x.1 ≡ messages_of (listed_page t.mail user groups exclude n k))
          (list_and_count_by_folders_for_user user groups exclude n k)
  unfolding list_and_count_by_folders_for_user
  listing-Reads user groups exclude n k =
      if-Reads t.mail _ (user == 0) _ _ (raise-Reads t.mail _ _) (
        bind-Reads t.mail (λ _. Unit {0}) _ (query _) _ (query-Reads t.mail _ _ tt)
          λ total _.
            bind-Reads t.mail (λ rows. rows ≡ listed_page t.mail user groups exclude n k) _
              (query _) _ (query-Reads t.mail _ _ refl)
              λ rows e. pure-Reads t.mail _ (total, messages_of rows) (ap messages_of e))

  listed-IsUsers :
      (user : ℕ) (groups : List (List ℕ)) (exclude : List ℕ) (n k : ℕ)
      → ArePage t user n (record {
        total = 0;
        hits = map hit_of_message (messages_of (listed_page t.mail user groups exclude n k));
      })
  listed-IsUsers user groups exclude n k =
      let rows = listed_page t.mail user groups exclude n k in
      let ordered =
        order_by newer (select (is_listed t.mail user groups exclude) t.mail.messages) in
      (
        omega (
          arith,
          length-map hit_of_message (messages_of rows),
          length-map (λ r. r.message) rows,
          length-limit n (offset k ordered),
        ),
        All-In (IsUsers t user) (map hit_of_message (messages_of rows)) λ h i.
            let (m, j, e) = In-map hit_of_message h (messages_of rows) i in
            let owns = (page-Listed t.mail user groups exclude n k m j).0 in
            along (IsUsers t user) h (hit_of_message m) e owns,
      )

  pub list_folders-Reads :
      (user n k : ℕ) (o : Option (List (List ℕ) × List ℕ))
      → Reads t (ArePage t user n) (list_folders user n k o)
  unfolding list_folders
  list_folders-Reads user n k none = pure-Reads t _ no_results (omega arith, _)
  list_folders-Reads user n k (some (groups, exclude)) =
      bind-Reads t (λ x. x.1 ≡ messages_of (listed_page t.mail user groups exclude n k)) _
        (read_only_transaction
          (on_mail (list_and_count_by_folders_for_user user groups exclude n k)))
        _
        (read_only_transaction-Reads t _ _ (
          zoom-Reads t (λ t. t.mail) (λ x t. record t { mail = x }) _ _ refl
            (listing-Reads user groups exclude n k)))
        λ found e. pure-Reads t _ _ (rw e (listed-IsUsers user groups exclude n k))

  filter-Reads :
      (ids folders : List ℕ)
      → Reads t.mail.locations (λ _. Unit {0}) (filter_message_ids_in_folders ids folders)
  unfolding filter_message_ids_in_folders
  filter-Reads [] folders = pure-Reads t.mail.locations _ [] tt
  filter-Reads (i ∷ ids) [] = pure-Reads t.mail.locations _ [] tt
  filter-Reads (i ∷ ids) (f ∷ folders) = query-Reads t.mail.locations _ _ tt

  located-Reads :
      (ids folders : List ℕ)
      → Reads t (λ _. Unit {0}) (on_locations (filter_message_ids_in_folders ids folders))
  located-Reads ids folders =
      zoom-Reads t (λ t. t.mail.locations)
        (λ x t. record t { mail = record t.mail { locations = x } }) _ _ refl
        (filter-Reads ids folders)

  keep_ids-Reads :
      (ranked : List ℕ) (constraints : List (Bool × List ℕ)) (keep : List ℕ)
      → Reads t (λ _. Unit {0}) (keep_ids ranked constraints keep)
  unfolding keep_ids
  keep_ids-Reads ranked [] keep = pure-Reads t _ keep tt
  keep_ids-Reads ranked ((false, []) ∷ more) keep = pure-Reads t _ [] tt
  keep_ids-Reads ranked ((true, []) ∷ more) keep = keep_ids-Reads ranked more keep
  keep_ids-Reads ranked ((false, f ∷ folders) ∷ more) keep =
      bind-Reads t (λ _. Unit {0}) _ _ _ (located-Reads ranked (f ∷ folders))
        λ matched _. keep_ids-Reads ranked more _
  keep_ids-Reads ranked ((true, f ∷ folders) ∷ more) keep =
      bind-Reads t (λ _. Unit {0}) _ _ _ (located-Reads ranked (f ∷ folders))
        λ matched _. keep_ids-Reads ranked more _

  -- what the post-filter keeps was there
  abbrev pub AreFrom : List SearchHit → List SearchHit → Type 0
  AreFrom hits kept = (h : SearchHit) → In h kept → In h hits

  pub post_filter-Reads :
      (constraints : List (Bool × List ℕ)) (hits : List SearchHit)
      → Reads t (AreFrom hits) (post_filter constraints hits)
  unfolding post_filter
  post_filter-Reads [] hits = pure-Reads t _ hits λ h i. i
  post_filter-Reads (c ∷ constraints) hits =
      let ranked = map (λ h. h.message_id) hits in
      bind-Reads t (λ _. Unit {0}) _
        (read_only_transaction (keep_ids ranked (c ∷ constraints) ranked)) _
        (read_only_transaction-Reads t _ _ (keep_ids-Reads ranked (c ∷ constraints) ranked))
        λ keep _. pure-Reads t _ _ λ h i. In-select (λ h. is_in keep h.message_id) h hits i

-- a hit is read from a document
abbrev pub AreRead : List Document → List SearchHit → Type 0
AreRead docs hits =
    (h : SearchHit) → In h hits → (d : Document) × In d docs × (d.account_id ≡ some h.account_id)

hit_account : (d : Document) (h : SearchHit) → hit_of d ≡ ok h → d.account_id ≡ some h.account_id
hit_account d h e = ground (arith, e)

push_sound :
    (d : Document) (docs : List Document) (x : Result SearchHit) (rest : Result (List SearchHit))
    (hits : List SearchHit)
    → ((h : SearchHit) → x ≡ ok h → d.account_id ≡ some h.account_id)
    → ((hs : List SearchHit) → rest ≡ ok hs → AreRead docs hs)
    → push_hit x rest ≡ ok hits
    → AreRead (d ∷ docs) hits
push_sound d docs (err z) rest hits f k e h i = ground (arith, e)
push_sound d docs (ok g) (err z) hits f k e h i = ground (arith, e)
push_sound d docs (ok g) (ok gs) hits f k e h i =
    let whole : g ∷ gs ≡ hits = ground (arith, e) in
    let j : In h (g ∷ gs) = rw (sym whole) at i in
    elim j [
      | inl q ↦ (d, inl refl, f g refl ∙ ap (λ x. some x.account_id) (sym q))
      | inr q ↦ let (c, l, same) = k gs refl h q in (c, inr l, same)
    ]

pub hits_of-AreRead :
    (docs : List Document) (hits : List SearchHit) → hits_of docs ≡ ok hits → AreRead docs hits
unfolding hits_of
hits_of-AreRead [] hits e h i =
    let none_left : [] ≡ hits = ground (arith, e) in absurd (rw (sym none_left) at i)
hits_of-AreRead (d ∷ docs) hits e h i =
    push_sound d docs (hit_of d) (hits_of docs) hits (hit_account d) (hits_of-AreRead docs) e h i
