-- ===== src/Accounts/Versions.antt =====
-- The versions of an account: laws of `update_account` in crates/core/src/account/service.rs.
use mail_keep.Base.{
  Text, ℕ, ◌+◌, ◌≡◌, ◌≢◌, refl, sym, ap, ◌∙◌, true, some, [], ◌∷◌, ◌==◌, ==_refl, ==_ne, arith,
}
use mail_keep.Error.{RepositoryError, repository_error}
use mail_keep.Sql.{ok, err, quiet, transaction, finish, statement, query, ok_or, raise, pure}
use mail_keep.Sql.Laws.{transaction-quiet}
use mail_keep.Sql.Table.{find_first, find_by_id, update_many}
use mail_keep.Accounts.{Account, before_save, is_changed, apply_to}
use mail_keep.Accounts.Store.{Accounts, account_id, existing_account, update, updated_row, save_row}
use mail_keep.Accounts.Service.{
  PartialAccountInput, validate_update, update_account, update_body, partial_update,
}
use mail_keep.Accounts.Laws.{calm, is_owned, owned_account-quiet}

find_owned :
    (user id : ℕ) (rows : Accounts) (a : Account)
    → find_by_id account_id id rows ≡ some a
    → a.user_id ≡ user
    → find_first (is_owned user id) rows ≡ some a
find_owned user id [] a h e = ground arith
find_owned user id (x ∷ rows) a h e = ground (arith, find_owned user id rows a)

pub find_saved :
    (id : ℕ) (rows : Accounts) (a b : Account)
    → find_by_id account_id id rows ≡ some a
    → b.id ≡ id
    → find_by_id account_id id (update_many (λ r. r.id == b.id) (λ _. b) rows) ≡ some b
find_saved id [] a b h e = ground arith
find_saved id (x ∷ rows) a b h e = ground (arith, find_saved id rows a b)

pub find_id :
    (id : ℕ) (rows : Accounts) (a : Account) → find_by_id account_id id rows ≡ some a → a.id ≡ id
find_id id [] a h = ground arith
find_id id (x ∷ rows) a h = ground (arith, find_id id rows a)

module _ (encrypt : ℕ → Text → Text) (now : ℕ) where
  abbrev pub next_row : ℕ → PartialAccountInput → Account → Account
  next_row id p a = updated_row now a (apply_to (partial_update encrypt now id p) a)

  update-quiet :
      (rows : Accounts) (a b : Account)
      → b.id ≢ 0
      → find_by_id account_id b.id rows ≡ some a
      → a.version ≡ b.version
      → update now b (quiet rows) ≡ (
        ok (updated_row now a b),
        quiet (update_many (λ r. r.id == (updated_row now a b).id) (λ _. updated_row now a b) rows),
      )
  unfolding update existing_account query statement ok_or save_row pure raise
  update-quiet rows a b nz found e =
      rw (update, existing_account, ==_ne b.id 0 nz, found, e, ==_refl b.version) refl

  body_quiet :
      (user id : ℕ) (p : PartialAccountInput) (rows : Accounts) (a : Account)
      → id ≢ 0
      → find_by_id account_id id rows ≡ some a
      → a.user_id ≡ user
      → update_body encrypt now user id a.version p (quiet rows) ≡ (
        ok (next_row id p a),
        quiet (update_many (λ r. r.id == (next_row id p a).id) (λ _. next_row id p a) rows),
      )
  unfolding update_body apply_to raise
  body_quiet user id p rows a nz found own =
      rw
        (
          update_body,
          owned_account-quiet user id rows a nz (find_owned user id rows a found own),
          ==_refl a.version,
        )
        (update-quiet rows a (apply_to (partial_update encrypt now id p) a) (λ z. nz (sym same ∙ z))
          (ap (λ i. find_by_id account_id i rows) same ∙ found) refl)
    where
      same : a.id ≡ id
      same = find_id id rows a found

  body_stale :
      (user id v : ℕ) (p : PartialAccountInput) (rows : Accounts) (a : Account)
      → id ≢ 0
      → find_by_id account_id id rows ≡ some a
      → a.user_id ≡ user
      → a.version ≢ v
      → update_body encrypt now user id v p (quiet rows)
        ≡ (err (repository_error RepositoryError.conflict), quiet rows)
  unfolding update_body raise
  body_stale user id v p rows a nz found own ne =
      rw
        (
          update_body,
          owned_account-quiet user id rows a nz (find_owned user id rows a found own),
          ==_ne a.version v ne,
        )
        refl

  next_id : (id : ℕ) (p : PartialAccountInput) (a : Account) → (next_row id p a).id ≡ a.id
  unfolding updated_row before_save apply_to
  next_id id p a = ground arith

  next_user :
      (id : ℕ) (p : PartialAccountInput) (a : Account) → (next_row id p a).user_id ≡ a.user_id
  unfolding updated_row before_save apply_to
  next_user id p a = ground arith

  next_version :
      (id : ℕ) (p : PartialAccountInput) (a : Account)
      → is_changed a (apply_to (partial_update encrypt now id p) a) ≡ true
      → (next_row id p a).version ≡ a.version + 1
  unfolding updated_row before_save
  next_version id p a h = rw (updated_row, h) refl

  run_quiet :
      (user id v : ℕ) (p : PartialAccountInput) (rows after : Accounts) (b : Account)
      → validate_update p ≡ ok tt
      → update_body encrypt now user id v p (quiet rows) ≡ (ok b, quiet after)
      → update_account encrypt now user id v p (calm rows 0) ≡ (ok b, calm after 0)
  unfolding update_account
  run_quiet user id v p rows after b valid h =
      rw
        (
          update_account,
          valid,
          transaction-quiet (update_body encrypt now user id v p) rows after b h,
        )
        refl

  run_stale :
      (user id v : ℕ) (p : PartialAccountInput) (rows : Accounts)
      → validate_update p ≡ ok tt
      → update_body encrypt now user id v p (quiet rows)
        ≡ (err (repository_error RepositoryError.conflict), quiet rows)
      → (update_account encrypt now user id v p (calm rows 0)).0
        ≡ err (repository_error RepositoryError.conflict)
  unfolding update_account transaction finish statement
  run_stale user id v p rows valid h = rw (update_account, valid, transaction, h) refl

  -- Two valid updates of the same account from the same version: if the first one changes the row, it
  -- succeeds with the next version, and the second one is refused with a conflict. The database does
  -- not fail, the account is the caller's and its id is not 0.
  pub update_account_conflict :
      (user id : ℕ) (p p' : PartialAccountInput) (rows : Accounts) (a : Account)
      → validate_update p ≡ ok tt
      → validate_update p' ≡ ok tt
      → id ≢ 0
      → find_by_id account_id id rows ≡ some a
      → a.user_id ≡ user
      → is_changed a (apply_to (partial_update encrypt now id p) a) ≡ true
      → let first = update_account encrypt now user id a.version p (calm rows 0) in
        let second = update_account encrypt now user id a.version p' first.1 in
        (first.0 ≡ ok (next_row id p a))
        × ((next_row id p a).version ≡ a.version + 1)
        × (second.0 ≡ err (repository_error RepositoryError.conflict))
  update_account_conflict user id p p' rows a valid valid' nz found own changed =
      rw
        (run_quiet user id a.version p rows after (next_row id p a) valid
          (body_quiet user id p rows a nz found own))
        (
          refl,
          next_version id p a changed,
          run_stale user id a.version p' after valid' (
              body_stale user id a.version p' after (next_row id p a) nz found'
                (next_user id p a ∙ own) (λ e. omega (arith, e, next_version id p a changed))),
        )
    where
      after : Accounts
      after = update_many (λ r. r.id == (next_row id p a).id) (λ _. next_row id p a) rows

      same : (next_row id p a).id ≡ id
      same = next_id id p a ∙ find_id id rows a found

      found' : find_by_id account_id id after ≡ some (next_row id p a)
      found' = find_saved id rows a (next_row id p a) found same
