-- ===== src/Accounts/Status.antt =====
-- The status of an account: laws of `set_status` and `list_enabled` in
-- crates/core/src/account/service.rs, over a database that does not fail.

use mail_keep.Base.{
  Text, ℕ, ◌+◌, ◌≡◌, ◌≢◌, refl, ap, true, Option, some, [], ◌∷◌, ◌==◌, ==_ne, arith,
}
use mail_keep.Sql.{
  Result, ok, err, Tx, quiet, read_only_transaction, statement, query, ok_or, raise,
}
use mail_keep.Sql.Laws.{transaction-quiet}
use mail_keep.Sql.Table.{select, find_first, find_by_id, update_many}
use mail_keep.Accounts.{Account, AccountStatus, before_save}
use mail_keep.Accounts.Store.{
  Accounts, account_id, list_enabled, existing_account, save_row, set_status,
}
use mail_keep.Accounts.Service.{
  Accounting, run_and_notify, service_list_enabled, service_set_status,
}
use mail_keep.Accounts.Laws.{calm}
use mail_keep.Accounts.Versions.{find_saved, find_id}

-- the row that `set_status` writes
abbrev pub with_status : ℕ → AccountStatus → Option Text → Account → Account
with_status now status e a = before_save now (record a { status = status; last_error = e })

abbrev pub saved : Account → Accounts → Accounts
saved b rows = update_many (λ r. r.id == b.id) (λ _. b) rows

set_status-quiet :
    (now id : ℕ) (status : AccountStatus) (e : Option Text) (rows : Accounts) (a : Account)
    → id ≢ 0
    → find_by_id account_id id rows ≡ some a
    → set_status now id status e (quiet rows)
      ≡ (ok tt, quiet (saved (with_status now status e a) rows))
unfolding set_status existing_account save_row query statement ok_or raise before_save
set_status-quiet now id status e rows a nz found = rw (set_status, ==_ne id 0 nz, found) refl

-- what `run_and_notify` makes of its transaction
abbrev pub told : ℕ → Result (Unit {0}) × Tx Accounts → Result (Unit {0}) × Accounting
told n x = elim x.0 [
  | ok a ↦ (ok a, record { tx = x.1; cleanups = []; notified = n + 1 })
  | err e ↦ (err e, record { tx = x.1; cleanups = []; notified = n })
]

pub service_set_status-calm :
    (now id n : ℕ) (status : AccountStatus) (e : Option Text) (rows : Accounts) (a : Account)
    → id ≢ 0
    → find_by_id account_id id rows ≡ some a
    → service_set_status now id status e (calm rows n)
      ≡ (ok tt, calm (saved (with_status now status e a) rows) (n + 1))
unfolding service_set_status run_and_notify
service_set_status-calm now id n status e rows a nz found = ap (told n) (
    transaction-quiet (set_status now id status e) rows (saved (with_status now status e a) rows) tt
      (set_status-quiet now id status e rows a nz found))

pub service_list_enabled-calm :
    (rows : Accounts) (n : ℕ)
    → service_list_enabled (calm rows n) ≡ (ok (select (λ a. a.enabled) rows), calm rows n)
unfolding service_list_enabled list_enabled read_only_transaction statement query
service_list_enabled-calm rows n = refl

pub find_saved-status :
    (now id : ℕ) (status : AccountStatus) (e : Option Text) (rows : Accounts) (a : Account)
    → find_by_id account_id id rows ≡ some a
    → find_by_id account_id id (saved (with_status now status e a) rows)
      ≡ some (with_status now status e a)
unfolding before_save
find_saved-status now id status e rows a found =
    find_saved id rows a (with_status now status e a) found (find_id id rows a found)

find_unsaved :
    (id other : ℕ) (rows : Accounts) (b : Account)
    → other ≢ id
    → b.id ≡ id
    → find_by_id account_id other (saved b rows) ≡ find_by_id account_id other rows
find_unsaved id other [] b ne e = refl
find_unsaved id other (x ∷ rows) b ne e = ground (arith, find_unsaved id other rows b ne)

pub find_other-status :
    (now id other : ℕ) (status : AccountStatus) (e : Option Text) (rows : Accounts) (a : Account)
    → other ≢ id
    → find_by_id account_id id rows ≡ some a
    → find_by_id account_id other (saved (with_status now status e a) rows)
      ≡ find_by_id account_id other rows
unfolding before_save
find_other-status now id other status e rows a ne found =
    find_unsaved id other rows (with_status now status e a) ne (find_id id rows a found)

-- An enabled account is found among those that are.
pub find-enabled :
    (id : ℕ) (rows : Accounts) (a : Account)
    → find_by_id account_id id rows ≡ some a
    → a.enabled ≡ true
    → find_first (λ (r : Account). r.id == id) (select (λ r. r.enabled) rows) ≡ some a
find-enabled id [] a h e = ground arith
find-enabled id (x ∷ rows) a h e = ground (arith, find-enabled id rows a)
