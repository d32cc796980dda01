-- ===== src/Search/Safety.antt =====
-- Laws of `search` in crates/search/src/service.rs: whose messages a search returns.
use mail_keep.Base.{
  ℕ, ℤ, ◌≤◌, ◌≡◌, refl, sym, ◌∙◌, Bool, true, Option, List, [], ◌∷◌, ◌==◌, In, All, All-In, In-map,
  length, Text, arith,
}
use mail_keep.Error.{RepositoryError}
use mail_keep.Sql.{Result, ok, lift}
use mail_keep.Sql.Table.{select, In-select}
use mail_keep.Sql.Order.{page, offset, In-limit, In-offset, length-limit, select-matches}
use mail_keep.Sql.Reads.{
  Reads, pure-Reads, lift-Reads, read_only_transaction-Reads, bind-Reads, zoom-Reads, answer_of,
}
use mail_keep.Accounts.Store.{list_for_user}
use mail_keep.Search.Query.{Clause, parse}
use mail_keep.Search.Scope.{Hint, split_clauses, resolve_scope}
use mail_keep.Search.ScopeLaws.{resolve_scope_iff}
use mail_keep.Search.Compile.{Ask, Document, build_query, is_match}
use mail_keep.Search.Matches.{build_query-scope}
use mail_keep.Search.Service.{
  SearchHit, SearchResults, Archive, no_results, on_accounts, scoped_folders, folder_groups,
  hits_of, fetch_size, post_filter, with_folders, scope_phase, index_phase, search_phase, search,
}
use mail_keep.Search.Answers.{
  IsUsers, ArePage, AreOwned, AreFrom, AreRead, list_for_user-Reads, scoped_folders-Reads,
  list_folders-Reads, post_filter-Reads, hits_of-AreRead,
}

module _ {D : Type 0} (parse_date : Text → Option D) (lower : Text → Text)
    (stem_tokens : Text → List Text) (day_start : D → ℤ) (succ_opt : D → Option D)
    (tantivy : Ask → ℕ → Result (ℕ × List Document)) (leaf : Ask → Document → Bool)
    (only_matches : (q : Ask) (n total : ℕ) (docs : List Document)
      → tantivy q n ≡ ok (total, docs)
      → (d : Document) → In d docs
      → is_match leaf d q ≡ true)
    (t : Archive) where
  with_folders-Reads :
      (user : ℕ) (scope : List ℕ) (hints : List Hint)
      → AreOwned t user scope
      → Reads t
          (λ x. AreOwned t user x.0)
          (with_folders parse_date lower stem_tokens day_start succ_opt tantivy scope hints)
  unfolding with_folders
  with_folders-Reads user [] hints h = pure-Reads t _ _ λ i z. absurd z
  with_folders-Reads user (i ∷ scope) hints h =
      bind-Reads t (λ _. Unit {0}) _ (scoped_folders (i ∷ scope)) _
        (scoped_folders-Reads t (i ∷ scope)) λ folders _. pure-Reads t _ _ h

  resolved_AreOwned :
      (user : ℕ) (hints : List Hint)
      → AreOwned t user
          (resolve_scope lower (select (λ a. a.user_id == user) t.mail.accounts) hints)
  resolved_AreOwned user hints i h =
      let owned = select (λ a. a.user_id == user) t.mail.accounts in
      let among = ((resolve_scope_iff lower owned hints i).0 h).0 in
      let (a, k, e) = In-map (λ a. a.id) i owned among in
      let users = select-matches (λ a. a.user_id == user) a t.mail.accounts k in
      (a, In-select (λ a. a.user_id == user) a t.mail.accounts k, ground (arith, users), e)

  scope_phase-Reads :
      (user : ℕ) (account_hints folder_hints : List Hint)
      → Reads t
          (λ x. AreOwned t user x.0)
          (scope_phase parse_date lower stem_tokens day_start succ_opt tantivy user account_hints
            folder_hints)
  unfolding scope_phase
  scope_phase-Reads user account_hints folder_hints = read_only_transaction-Reads t _ _ (
      bind-Reads t (λ rows. rows ≡ select (λ a. a.user_id == user) t.mail.accounts) _
        (on_accounts (list_for_user user)) _
        (zoom-Reads t (λ t. t.mail.accounts)
          (λ x t. record t { mail = record t.mail { accounts = x } }) _ _ refl
          (list_for_user-Reads t user))
        λ accounts e.
          with_folders-Reads user (resolve_scope lower accounts account_hints) folder_hints
            (rw e (resolved_AreOwned user account_hints)))

  hits_IsUsers :
      (user n k : ℕ) (scope : List ℕ) (residual : List (Clause D)) (fetch total : ℕ)
      (docs : List Document) (hits kept : List SearchHit)
      → AreOwned t user scope
      → tantivy (build_query stem_tokens day_start succ_opt scope residual) fetch ≡ ok (total, docs)
      → AreRead docs hits
      → AreFrom t hits kept
      → ArePage t user n (record { total = total; hits = page n k kept })
  hits_IsUsers user n k scope residual fetch total docs hits kept owned answer read from = (
    length-limit n (offset k kept),
    All-In (IsUsers t user) (page n k kept) λ h i.
        let (d, j, e) = read h (from h (In-offset k h kept (In-limit n h (offset k kept) i))) in
        let found =
          only_matches (build_query stem_tokens day_start succ_opt scope residual) fetch total docs
            answer d j in
        let (a, in_scope, q) =
          build_query-scope stem_tokens day_start succ_opt leaf d scope residual found in
        let (acc, there, users, is_id) = owned a in_scope in
        let same : a ≡ h.account_id = ground (arith, q, e) in (acc, there, users, sym same ∙ is_id),
  )

  index_phase-Reads :
      (user : ℕ) (scope : List ℕ) (constraints : List (Bool × List ℕ)) (residual : List (Clause D))
      (n k : ℕ)
      → AreOwned t user scope
      → Reads t (ArePage t user n) (
          index_phase parse_date lower stem_tokens day_start succ_opt tantivy scope constraints
            residual n k)
  unfolding index_phase
  index_phase-Reads user scope constraints residual n k owned =
      let query = build_query stem_tokens day_start succ_opt scope residual in
      let fetch = fetch_size constraints n k in
      bind-Reads t (λ top. tantivy query fetch ≡ ok top) _ (lift (tantivy query fetch)) _
        (lift-Reads t _ (tantivy query fetch) λ a e. e)
        λ top answer.
          bind-Reads t (AreRead top.1) _ (lift (hits_of top.1)) _
            (lift-Reads t _ (hits_of top.1) λ hs e. hits_of-AreRead top.1 hs e)
            λ hits read.
              bind-Reads t (AreFrom t hits) _ (post_filter constraints hits) _
                (post_filter-Reads t constraints hits)
                λ kept from. pure-Reads t _ _ (
                  hits_IsUsers user n k scope residual fetch top.0 top.1 hits kept owned answer read
                    from)

  search_phase-Reads :
      (user : ℕ) (scope : List ℕ) (constraints : List (Bool × List ℕ)) (residual : List (Clause D))
      (n k : ℕ)
      → AreOwned t user scope
      → Reads t (ArePage t user n) (
          search_phase parse_date lower stem_tokens day_start succ_opt tantivy user scope
            constraints residual n k)
  unfolding search_phase
  search_phase-Reads user [] constraints residual n k owned =
      pure-Reads t _ no_results (omega arith, _)
  search_phase-Reads user (i ∷ scope) (c ∷ constraints) [] n k owned =
      list_folders-Reads t user n k (folder_groups (c ∷ constraints))
  search_phase-Reads user (i ∷ scope) [] residual n k owned =
      index_phase-Reads user (i ∷ scope) [] residual n k owned
  search_phase-Reads user (i ∷ scope) (c ∷ constraints) (r ∷ residual) n k owned =
      index_phase-Reads user (i ∷ scope) (c ∷ constraints) (r ∷ residual) n k owned

  -- A search that succeeds returns at most `limit` hits, each of an account of the user, whatever the
  -- query says and whichever way it is answered. Tantivy returns documents that match its query only.
  pub search_scope :
      (user : ℕ) (text : Text) (limit offset : ℕ) (l : List (Option RepositoryError))
      (r : SearchResults)
      → (search parse_date lower stem_tokens day_start succ_opt tantivy user text limit offset
          (record { tables = t; faults = l })).0
        ≡ ok r
      → (length r.hits ≤ limit) × All (IsUsers t user) r.hits
  unfolding search
  search_scope user text n k l r e =
      let s = split_clauses (parse parse_date text) in
      answer_of t (ArePage t user n)
        (search parse_date lower stem_tokens day_start succ_opt tantivy user text n k) l r
        (bind-Reads t (λ x. AreOwned t user x.0) _
          (scope_phase parse_date lower stem_tokens day_start succ_opt tantivy user s.accounts
            s.folders)
          _ (scope_phase-Reads user s.accounts s.folders)
          λ phase owned. search_phase-Reads user phase.0 phase.1 s.residual n k owned)
        e
