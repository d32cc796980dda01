-- ===== src/Imap/Start.antt =====
-- Laws of `start_account` in crates/core/src/imap/service.rs, over the adapter of crates/imap: what
-- is kept in sync for an account that is started.
use mail_keep.Base.{
  Text, ℕ, ◌+◌, ◌≡◌, ◌≢◌, refl, ap, ◌∙◌, Bool, true, ◌&&◌, Option, none, some, List, ◌==◌, ==_ne,
  ==_refl, In,
}
use mail_keep.Error.{Error}
use mail_keep.Sql.{Result, ok, err, Tx, quiet, read_only_transaction, statement, query, raise}
use mail_keep.Sql.Table.{select, find_by_id}
use mail_keep.Accounts.{Account, AccountStatus}
use mail_keep.Accounts.Store.{Accounts, account_id, list_enabled}
use mail_keep.Accounts.Service.{service_list_enabled}
use mail_keep.Accounts.Laws.{calm}
use mail_keep.Accounts.Status.{
  with_status, saved, service_set_status-calm, find_saved-status, find-enabled,
}
use mail_keep.Folders.{Folder}
use mail_keep.Folders.Store.{FolderTable, list_enabled_for_account}
use mail_keep.Folders.Service.{list_enabled_folders}
use mail_keep.Imap.Adapter.{ImapAdapter, start_account, imap_port}
use mail_keep.Imap.Service.{
  Syncing, folder_config, connection_params, enabled_accounts, write_status, load_enabled_account,
  started, start_with, start_one, service_start_account,
}
use mail_keep.Imap.Watches.{In-map_of, In-selected, Watches, started_Watches}

-- a state in which no call of the database fails
abbrev pub steady : {S : Type 0} → Accounts → ℕ → FolderTable → S → Syncing S
steady rows n folders p = record { accounting = calm rows n; folders = quiet folders; port = p }

abbrev pub enabled_of : ℕ → Folder → Bool
enabled_of account f = f.account_id == account && f.enabled

folders_quiet :
    (account : ℕ) (t : FolderTable)
    → account ≢ 0
    → list_enabled_folders account (quiet t) ≡ (ok (select (enabled_of account) t), quiet t)
unfolding list_enabled_folders list_enabled_for_account read_only_transaction statement query raise
folders_quiet account t nz =
    rw (list_enabled_folders, list_enabled_for_account, ==_ne account 0 nz) refl

module _ (decrypt : ℕ → Text → Result Text) (describe : Error → Text) (now : ℕ) where
  load_steady :
      (id n : ℕ) (rows : Accounts) (t : FolderTable) (p : ImapAdapter) (a : Account)
      → find_by_id account_id id rows ≡ some a
      → a.enabled ≡ true
      → load_enabled_account imap_port decrypt describe now id (steady rows n t p)
        ≡ (ok a, steady rows n t p)
  unfolding load_enabled_account enabled_accounts service_list_enabled list_enabled
      read_only_transaction statement query
  load_steady id n rows t p a found enabled = rw (find-enabled id rows a found enabled) refl

  write_steady :
      (id n : ℕ) (status : AccountStatus) (e : Option Text) (rows : Accounts) (t : FolderTable)
      → (p : ImapAdapter) (a : Account) → id ≢ 0
      → find_by_id account_id id rows ≡ some a
      → write_status imap_port decrypt describe now id status e (steady rows n t p)
        ≡ (ok tt, steady (saved (with_status now status e a) rows) (n + 1) t p)
  unfolding write_status
  write_steady id n status e rows t p a nz found =
      ap (λ x. (x.0, record { accounting = x.1; folders = quiet t; port = p }))
        (service_set_status-calm now id n status e rows a nz found)

  -- what `start_one` makes of the folders that it lists
  abbrev pub on_folders :
      Syncing ImapAdapter
      → Account
      → Result (List Folder) × Tx FolderTable
      → Result (Unit {0}) × Syncing ImapAdapter
  on_folders s account x =
      let s' : Syncing ImapAdapter = record s { folders = x.1 } in
      elim x.0 [
        | err e ↦ (err e, s')
        | ok fs ↦ elim (decrypt account.id account.credentials) [
          | err e ↦ (err e, s')
          | ok password ↦ start_with imap_port decrypt describe now account password fs s'
        ]
      ]

  start_steady :
      (n : ℕ) (rows : Accounts) (t : FolderTable) (p : ImapAdapter) (a : Account) (password : Text)
      → a.id ≢ 0
      → find_by_id account_id a.id rows ≡ some a
      → decrypt a.id a.credentials ≡ ok password
      → start_one imap_port decrypt describe now a (steady rows n t p) ≡ (
        ok tt,
        steady
            (saved (with_status now AccountStatus.syncing none a) rows)
            (n + 1)
            t
            (start_account a.id (connection_params a password (select (enabled_of a.id) t)) p).1,
      )
  unfolding start_one start_with started imap_port start_account
  start_steady n rows t p a password nz found plain =
      ap (on_folders (steady rows n t p) a) (folders_quiet a.id t nz)
      ∙ rw (on_folders, plain)
          (write_steady a.id n AccountStatus.syncing none rows t
            (start_account a.id (connection_params a password (select (enabled_of a.id) t)) p).1 a
            nz found)

  -- what `start_account` makes of the account that it loads
  abbrev pub with_account :
      Result Account × Syncing ImapAdapter → Result (Unit {0}) × Syncing ImapAdapter
  with_account x = elim x.0 [
    | err e ↦ (err e, x.1)
    | ok account ↦ start_one imap_port decrypt describe now account x.1
  ]

  run_steady :
      (n : ℕ) (rows : Accounts) (t : FolderTable) (p : ImapAdapter) (a : Account) (password : Text)
      → a.id ≢ 0
      → find_by_id account_id a.id rows ≡ some a
      → a.enabled ≡ true
      → decrypt a.id a.credentials ≡ ok password
      → service_start_account imap_port decrypt describe now a.id (steady rows n t p) ≡ (
        ok tt,
        steady
            (saved (with_status now AccountStatus.syncing none a) rows)
            (n + 1)
            t
            (start_account a.id (connection_params a password (select (enabled_of a.id) t)) p).1,
      )
  unfolding service_start_account
  run_steady n rows t p a password nz found enabled plain =
      ap with_account (load_steady a.id n rows t p a found enabled)
      ∙ start_steady n rows t p a password nz found plain

  -- Starting an account that is enabled succeeds, records that it is syncing, and leaves for each of
  -- its enabled folders a running task of the account that has the folder. Its credentials can be
  -- decrypted, its id is not 0 and the database does not fail.
  pub service_start_account-Watches :
      (n : ℕ) (rows : Accounts) (t : FolderTable) (p : ImapAdapter) (a : Account) (password : Text)
      → (f : Folder) → a.id ≢ 0
      → find_by_id account_id a.id rows ≡ some a
      → a.enabled ≡ true
      → decrypt a.id a.credentials ≡ ok password
      → In f t
      → f.account_id ≡ a.id
      → f.enabled ≡ true
      → let (r, after) =
          service_start_account imap_port decrypt describe now a.id (steady rows n t p) in
        (r ≡ ok tt)
        × (find_by_id account_id a.id after.accounting.tx.tables
            ≡ some (with_status now AccountStatus.syncing none a))
        × Watches after.port a.id (folder_config f)
  unfolding service_start_account connection_params
  service_start_account-Watches n rows t p a password f nz found enabled plain i own on =
      let chosen : enabled_of a.id f ≡ true = rw (own, on) (rw (==_refl a.id) refl) in
      let params = connection_params a password (select (enabled_of a.id) t) in
      rw (run_steady n rows t p a password nz found enabled plain) (
        refl,
        find_saved-status now a.id AccountStatus.syncing none rows a found,
        started_Watches a.id params p (folder_config f) (
            In-map_of folder_config f (select (enabled_of a.id) t)
              (In-selected (enabled_of a.id) f t i chosen)),
      )
