-- ===== src/Imap/Reconcile.antt =====
-- Laws of `reconcile_statuses` in crates/core/src/imap/service.rs: the stored statuses follow the
-- live ones, and no disabled account stays tracked.
use mail_keep.Base.{
  Text, ℕ, ◌+◌, ◌≡◌, ◌≢◌, refl, ap, inl, inr, true, Option, none, some, option_map, arith,
  Bool-cases,
}
use mail_keep.Error.{Error}
use mail_keep.Sql.{Result, ok, err, quiet}
use mail_keep.Sql.Table.{find_by_id}
use mail_keep.Accounts.{Account, AccountStatus, as_str, status_eq, before_save}
use mail_keep.Accounts.Store.{Accounts, account_id}
use mail_keep.Accounts.Status.{
  with_status, saved, service_set_status-calm, find_saved-status, find_other-status,
}
use mail_keep.Folders.Store.{FolderTable}
use mail_keep.Imap.Io.{SyncStatus}
use mail_keep.Imap.Port.{ImapPort}
use mail_keep.Imap.Service.{Syncing, desired, write_status, drive, reconcile_account}
use mail_keep.Imap.Start.{steady}

status_eq_sound : (a b : AccountStatus) → status_eq a b ≡ true → a ≡ b
unfolding as_str
status_eq_sound AccountStatus.pending_first_sync AccountStatus.pending_first_sync h = refl
status_eq_sound AccountStatus.pending_first_sync AccountStatus.syncing h = ground (arith, h)
status_eq_sound AccountStatus.pending_first_sync AccountStatus.idle h = ground (arith, h)
status_eq_sound AccountStatus.pending_first_sync AccountStatus.error h = ground (arith, h)
status_eq_sound AccountStatus.pending_first_sync AccountStatus.disabled h = ground (arith, h)
status_eq_sound AccountStatus.syncing AccountStatus.pending_first_sync h = ground (arith, h)
status_eq_sound AccountStatus.syncing AccountStatus.syncing h = refl
status_eq_sound AccountStatus.syncing AccountStatus.idle h = ground (arith, h)
status_eq_sound AccountStatus.syncing AccountStatus.error h = ground (arith, h)
status_eq_sound AccountStatus.syncing AccountStatus.disabled h = ground (arith, h)
status_eq_sound AccountStatus.idle AccountStatus.pending_first_sync h = ground (arith, h)
status_eq_sound AccountStatus.idle AccountStatus.syncing h = ground (arith, h)
status_eq_sound AccountStatus.idle AccountStatus.idle h = refl
status_eq_sound AccountStatus.idle AccountStatus.error h = ground (arith, h)
status_eq_sound AccountStatus.idle AccountStatus.disabled h = ground (arith, h)
status_eq_sound AccountStatus.error AccountStatus.pending_first_sync h = ground (arith, h)
status_eq_sound AccountStatus.error AccountStatus.syncing h = ground (arith, h)
status_eq_sound AccountStatus.error AccountStatus.idle h = ground (arith, h)
status_eq_sound AccountStatus.error AccountStatus.error h = refl
status_eq_sound AccountStatus.error AccountStatus.disabled h = ground (arith, h)
status_eq_sound AccountStatus.disabled AccountStatus.pending_first_sync h = ground (arith, h)
status_eq_sound AccountStatus.disabled AccountStatus.syncing h = ground (arith, h)
status_eq_sound AccountStatus.disabled AccountStatus.idle h = ground (arith, h)
status_eq_sound AccountStatus.disabled AccountStatus.error h = ground (arith, h)
status_eq_sound AccountStatus.disabled AccountStatus.disabled h = refl

-- The stored status is the one that the live status asks for, if it asks for any.
abbrev pub Meets : Option AccountStatus → AccountStatus → Type 0
Meets none status = Unit {0}
Meets (some wanted) status = status ≡ wanted

unfoldable pub Follows : Result SyncStatus → AccountStatus → Type 0
unfolding desired
Follows (err e) status = Unit {0}
Follows (ok live) status = Meets (desired live.state) status

-- the account's row after the loop
abbrev pub Stored : Accounts → Account → Result SyncStatus → Type 0
Stored rows a live =
    (row : Account) × (find_by_id account_id a.id rows ≡ some row) × Follows live row.status

module _ {S : Type 0} (port : ImapPort S) (decrypt : ℕ → Text → Result Text)
    (describe : Error → Text) (now : ℕ) where
  -- what one round of the loop leaves
  abbrev pub Driven : Account → Accounts → FolderTable → S → Result SyncStatus → Syncing S → Type 0
  Driven a rows t p live s =
      (rows' : Accounts) × (n : ℕ) × (s ≡ steady rows' n t p)
      × Stored rows' a live
      × ((j : ℕ) → j ≢ a.id → find_by_id account_id j rows' ≡ find_by_id account_id j rows)

  drive-Driven :
      (a : Account) (live : SyncStatus) (o : Option AccountStatus) (rows : Accounts) (n : ℕ)
      → (t : FolderTable) (p : S) → desired live.state ≡ o
      → a.id ≢ 0
      → find_by_id account_id a.id rows ≡ some a
      → Driven a rows t p (ok live) (drive port decrypt describe now a live o (steady rows n t p))
  unfolding drive write_status Follows before_save
  drive-Driven a live none rows n t p e nz found =
      (rows, n, refl, (a, found, rw e tt), λ j ne. refl)
  drive-Driven a live (some wanted) rows n t p e nz found =
      elim (Bool-cases (status_eq a.status wanted)) [
        | inl q ↦
            rw q (rows, n, refl, (a, found, rw e (status_eq_sound a.status wanted q)), λ j ne. refl)
        | inr q ↦
            let text = option_map describe live.last_error in
            rw q (
              saved (with_status now wanted text a) rows,
              n + 1,
              ap (λ x. record { accounting = x.1; folders = quiet t; port = p })
                  (service_set_status-calm now a.id n wanted text rows a nz found),
              (
                with_status now wanted text a,
                find_saved-status now a.id wanted text rows a found,
                rw e refl,
              ),
              λ j ne. find_other-status now a.id j wanted text rows a ne found,
            )
      ]

  pub answered-Driven :
      (a : Account) (r : Result SyncStatus) (rows : Accounts) (n : ℕ) (t : FolderTable) (p : S)
      → port.status a.id p ≡ r
      → a.id ≢ 0
      → find_by_id account_id a.id rows ≡ some a
      → Driven a rows t p r (reconcile_account port decrypt describe now a (steady rows n t p))
  unfolding reconcile_account Follows
  answered-Driven a (err e) rows n t p q nz found =
      rw (reconcile_account, q) (rows, n, refl, (a, found, tt), λ j ne. refl)
  answered-Driven a (ok live) rows n t p q nz found =
      rw (reconcile_account, q) (drive-Driven a live (desired live.state) rows n t p refl nz found)
