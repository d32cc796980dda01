-- ===== src/Search/Service.antt =====
-- crates/search/src/service.rs: `search`. Tantivy is the parameter `tantivy`: for a query and a limit
-- the number of matching documents and the newest of them, or its error. `usize` has 64 bits, where
-- the two saturating operations on 32-bit numbers are exact.
use mail_keep.Base.{
  ℕ, ◌+◌, ◌*◌, min, max, ℤ, Bool, true, false, not, Option, none, some, List, [], ◌∷◌, ◌++◌, map,
  Text, codes,
}
use mail_keep.Error.{infrastructure}
use mail_keep.Sql.{Result, ok, err, Sql, pure, lift, ◌>>=◌, zoom, read_only_transaction}
use mail_keep.Sql.Table.{select}
use mail_keep.Sql.Order.{page}
use mail_keep.Accounts.Store.{Accounts, list_for_user}
use mail_keep.Folders.{Folder}
use mail_keep.Folders.Store.{FolderTable, list_for_account}
use mail_keep.Messages.Model.{Message}
use mail_keep.Messages.Locations.{Locations, is_in, filter_message_ids_in_folders}
use mail_keep.Messages.Store.{Mail, list_and_count_by_folders_for_user}
use mail_keep.Search.Query.{Clause, parse}
use mail_keep.Search.Scope.{Hint, split_clauses, resolve_scope, folder_constraints}
use mail_keep.Search.Compile.{Ask, Document, build_query}

-- `SearchHit`
pub record SearchHit : Type 0 where
  pub message_id : ℕ
  pub account_id : ℕ
  pub snippet : Text

-- `SearchResults`
pub record SearchResults : Type 0 where
  pub total : ℕ
  pub hits : List SearchHit

-- the tables that a search reads
pub record Archive : Type 0 where
  pub mail : Mail
  pub folders : FolderTable

module _ {A : Type 0} where
  abbrev pub on_mail : Sql Mail A → Sql Archive A
  on_mail m = zoom (λ t. t.mail) (λ x t. record t { mail = x }) m

  abbrev pub on_folders : Sql FolderTable A → Sql Archive A
  on_folders m = zoom (λ t. t.folders) (λ x t. record t { folders = x }) m

  abbrev pub on_accounts : Sql Accounts A → Sql Archive A
  on_accounts m =
      zoom (λ t. t.mail.accounts) (λ x t. record t { mail = record t.mail { accounts = x } }) m

  abbrev pub on_locations : Sql Locations A → Sql Archive A
  on_locations m =
      zoom (λ t. t.mail.locations) (λ x t. record t { mail = record t.mail { locations = x } }) m

abbrev pub no_results : SearchResults
no_results = record { total = 0; hits = [] }

abbrev pub folder_overfetch : ℕ
folder_overfetch = 10

abbrev pub max_fetch : ℕ
max_fetch = 10000

-- `scoped_folders`
unfoldable pub scoped_folders : List ℕ → Sql Archive (List Folder)
unfolding zoom pure list_for_account
scoped_folders [] = pure []
scoped_folders (i ∷ scope) =
    let rest = scoped_folders scope in
    do fs ← on_folders (list_for_account i); others ← rest; pure (fs ++ others)

-- the loop of the fast path: the required groups and the excluded folders, or `none` where a required
-- hint named no folder
unfoldable pub folder_groups : List (Bool × List ℕ) → Option (List (List ℕ) × List ℕ)
folder_groups [] = some ([], [])
folder_groups ((true, ids) ∷ more) = elim (folder_groups more) [
  | none ↦ none
  | some (groups, exclude) ↦ some (groups, ids ++ exclude)
]
folder_groups ((false, []) ∷ more) = none
folder_groups ((false, i ∷ ids) ∷ more) = elim (folder_groups more) [
  | none ↦ none
  | some (groups, exclude) ↦ some ((i ∷ ids) ∷ groups, exclude)
]

abbrev pub hit_of_message : Message → SearchHit
hit_of_message m = record {
  message_id = m.id;
  account_id = m.account_id;
  snippet = codes m.snippet;
}

-- the listing of the fast path
unfoldable pub list_folders :
    ℕ → ℕ → ℕ → Option (List (List ℕ) × List ℕ) → Sql Archive SearchResults
unfolding list_and_count_by_folders_for_user read_only_transaction zoom pure
list_folders user limit offset none = pure no_results
list_folders user limit offset (some (groups, exclude)) = do
  found ←
      read_only_transaction
        (on_mail (list_and_count_by_folders_for_user user groups exclude limit offset))
  pure (record { total = found.0; hits = map hit_of_message found.1 })

-- the hit that a document is read as
abbrev pub hit_of : Document → Result SearchHit
hit_of d = elim d.message_id [
  | none ↦ err (infrastructure "search hit missing message_id")
  | some m ↦ elim d.account_id [
    | none ↦ err (infrastructure "search hit missing account_id")
    | some a ↦ ok (record {
      message_id = m;
      account_id = a;
      snippet = elim d.snippet [ none ↦ [] | some s ↦ s ];
    })
  ]
]

abbrev pub push_hit : Result SearchHit → Result (List SearchHit) → Result (List SearchHit)
push_hit (err e) rest = err e
push_hit (ok h) (ok hits) = ok (h ∷ hits)
push_hit (ok h) (err e) = err e

-- the loop over `top`
unfoldable pub hits_of : List Document → Result (List SearchHit)
hits_of [] = ok []
hits_of (d ∷ docs) = push_hit (hit_of d) (hits_of docs)

abbrev pub exactly : Bool → Bool → Bool
exactly true b = b
exactly false b = not b

-- the loop of the post-filter: the ids that are kept
unfoldable pub keep_ids : List ℕ → List (Bool × List ℕ) → List ℕ → Sql Archive (List ℕ)
unfolding pure zoom filter_message_ids_in_folders
keep_ids ranked [] keep = pure keep
keep_ids ranked ((false, []) ∷ more) keep = pure []
keep_ids ranked ((true, []) ∷ more) keep = keep_ids ranked more keep
keep_ids ranked ((negated, f ∷ folders) ∷ more) keep = do
  matched ← on_locations (filter_message_ids_in_folders ranked (f ∷ folders))
  keep_ids ranked more (select (λ i. exactly (not negated) (is_in matched i)) keep)

-- the post-filter
unfoldable pub post_filter : List (Bool × List ℕ) → List SearchHit → Sql Archive (List SearchHit)
unfolding keep_ids read_only_transaction pure
post_filter [] hits = pure hits
post_filter (c ∷ constraints) hits = do
  let ranked = map (λ h. h.message_id) hits
  keep ← read_only_transaction (keep_ids ranked (c ∷ constraints) ranked)
  pure (select (λ h. is_in keep h.message_id) hits)

-- `fetch`
abbrev pub fetch_size : List (Bool × List ℕ) → ℕ → ℕ → ℕ
fetch_size [] limit offset = max 1 (min (offset + limit) max_fetch)
fetch_size (c ∷ more) limit offset = max 1 (min ((offset + limit) * folder_overfetch) max_fetch)

module _ {D : Type 0} (parse_date : Text → Option D) (lower : Text → Text)
    (stem_tokens : Text → List Text) (day_start : D → ℤ) (succ_opt : D → Option D)
    (tantivy : Ask → ℕ → Result (ℕ × List Document)) where
  -- the folders of the first phase, for a scope
  unfoldable pub with_folders : List ℕ → List Hint → Sql Archive (List ℕ × List (Bool × List ℕ))
  unfolding scoped_folders folder_constraints pure
  with_folders [] hints = pure ([], [])
  with_folders (i ∷ scope) hints = do
    folders ← scoped_folders (i ∷ scope)
    pure (i ∷ scope, folder_constraints lower folders hints)

  -- the first phase
  unfoldable pub scope_phase :
      ℕ → List Hint → List Hint → Sql Archive (List ℕ × List (Bool × List ℕ))
  unfolding with_folders resolve_scope zoom list_for_user read_only_transaction
  scope_phase user account_hints folder_hints = read_only_transaction (do
    accounts ← on_accounts (list_for_user user)
    with_folders (resolve_scope lower accounts account_hints) folder_hints)

  -- the phase of Tantivy, and the post-filter
  unfoldable pub index_phase :
      List ℕ → List (Bool × List ℕ) → List (Clause D) → ℕ → ℕ → Sql Archive SearchResults
  unfolding build_query lift post_filter hits_of pure
  index_phase scope constraints residual limit offset = do
    top ← lift (
        tantivy (build_query stem_tokens day_start succ_opt scope residual)
          (fetch_size constraints limit offset))
    hits ← lift (hits_of top.1)
    kept ← post_filter constraints hits
    pure (record { total = top.0; hits = page limit offset kept })

  -- what follows the first phase
  unfoldable pub search_phase :
      ℕ → List ℕ → List (Bool × List ℕ) → List (Clause D) → ℕ → ℕ → Sql Archive SearchResults
  unfolding index_phase list_folders folder_groups pure
  search_phase user [] constraints residual limit offset = pure no_results
  search_phase user (i ∷ scope) (c ∷ constraints) [] limit offset =
      list_folders user limit offset (folder_groups (c ∷ constraints))
  search_phase user (i ∷ scope) [] residual limit offset =
      index_phase (i ∷ scope) [] residual limit offset
  search_phase user (i ∷ scope) (c ∷ constraints) (r ∷ residual) limit offset =
      index_phase (i ∷ scope) (c ∷ constraints) (r ∷ residual) limit offset

  -- `search`
  unfoldable pub search : ℕ → Text → ℕ → ℕ → Sql Archive SearchResults
  unfolding split_clauses parse scope_phase search_phase
  search user text limit offset = do
    let s = split_clauses (parse parse_date text)
    phase ← scope_phase user s.accounts s.folders
    search_phase user phase.0 phase.1 s.residual limit offset
