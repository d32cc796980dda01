-- ===== src/Accounts/Service.antt =====
-- crates/core/src/account/service.rs. The encryption of a password under the account's id stands
-- for serde and `CipherService`, and is a parameter.
use mail_keep.Base.{
  Text, is_empty, ℕ, ◌+◌, Bool, true, false, not, Option, none, some, List, ◌∷◌, ◌==◌,
  if◌then◌else◌, option_map, all,
}
use mail_keep.Error.{RepositoryError, validation, repository_error}
use mail_keep.Sql.{
  Result, ok, err, Tx, Sql, pure, raise, ok_or, transaction, read_only_transaction, ◌>>=◌,
}
use mail_keep.Search.Query.{is_whitespace}
use mail_keep.Accounts.{
  Account, AccountStatus, ImapServerConfig, PartialAccountUpdate, apply_to, pending_first_sync,
  disabled,
}
use mail_keep.Accounts.Store.{
  Accounts, insert, list_for_user, list_enabled, find_by_id_for_user, update, set_status,
  set_enabled, delete,
}

-- `CreateAccountParams`
pub record CreateAccountParams : Type 0 where
  pub user_id : ℕ
  pub display_name : Text
  pub email_address : Text
  pub server : ImapServerConfig
  pub username : Text
  pub password : Text

-- `PartialAccountInput`
pub record PartialAccountInput : Type 0 where
  pub display_name : Option Text
  pub password : Option Text
  pub server : Option ImapServerConfig
  pub username : Option Text

-- `s.trim().is_empty()`
unfoldable pub blank : Text → Bool
unfolding is_whitespace
blank t = all is_whitespace t

-- `validate_create`
unfoldable pub validate_create : CreateAccountParams → Result (Unit {0})
unfolding blank is_empty
validate_create p =
    if blank p.display_name
    then err (validation "display_name is required")
    else if blank p.server.host
    then err (validation "server.host is required")
    else if p.server.port == 0
    then err (validation "server.port must be > 0")
    else if blank p.username
    then err (validation "username is required")
    else if is_empty p.password
    then err (validation "password is required")
    else ok tt

abbrev pub given {ℓ} : {A : Type ℓ} → (A → Bool) → Option A → Bool
given p none = false
given p (some a) = p a

-- `validate_update`
unfoldable pub validate_update : PartialAccountInput → Result (Unit {0})
unfolding blank is_empty
validate_update p =
    if given blank p.display_name
    then err (validation "display_name must be non-empty")
    else if given (λ (s : ImapServerConfig). blank s.host) p.server
    then err (validation "server.host must be non-empty")
    else if given (λ (s : ImapServerConfig). s.port == 0) p.server
    then err (validation "server.port must be > 0")
    else if given blank p.username
    then err (validation "username must be non-empty")
    else if given is_empty p.password
    then err (validation "password must be non-empty")
    else ok tt

-- The three stores that `delete_account` clears for an account after its row is gone; a failure
-- of one is only logged.
pub data Cleanup : Type 0 where
  raw_storage attachment_storage search_index : ℕ → Cleanup

-- What the service changes: the table, the clean-ups asked for, and how often the listeners of
-- `notify_accounts_changed` were told.
pub record Accounting : Type 0 where
  pub tx : Tx Accounts
  pub cleanups : List Cleanup
  pub notified : ℕ

-- a transaction that tells nobody
abbrev pub run : {A : Type 0} → Sql Accounts A → Accounting → Result A × Accounting
run body s = let (r, tx') = transaction body s.tx in (r, record s { tx = tx' })

-- a transaction, then `notify_accounts_changed` once it is committed
unfoldable pub run_and_notify : {A : Type 0} → Sql Accounts A → Accounting → Result A × Accounting
run_and_notify body s =
    let (r, s') = run body s in
    elim r [ ok a ↦ (ok a, record s' { notified = s'.notified + 1 }) | err e ↦ (err e, s') ]

-- `find_by_id_for_user(..).await?.ok_or(NotFound)?`
unfoldable pub owned_account : ℕ → ℕ → Sql Accounts Account
unfolding find_by_id_for_user ok_or
owned_account user id = do
  found ← find_by_id_for_user user id
  ok_or found (repository_error RepositoryError.not_found)

module _ (encrypt : ℕ → Text → Text) (now : ℕ) where
  -- `create_account`, for the id of a freshly generated token
  unfoldable pub create_account : ℕ → CreateAccountParams → Accounting → Result Account × Accounting
  unfolding validate_create insert run_and_notify
  create_account id p s = elim (validate_create p) [
    | err e ↦ (err e, s)
    | ok _ ↦
        run_and_notify
          (insert now (record {
            id = id;
            user_id = p.user_id;
            display_name = p.display_name;
            email_address = p.email_address;
            server = p.server;
            username = p.username;
            credentials = encrypt id p.password;
          }))
          s
  ]

  -- the update with its password encrypted
  unfoldable pub partial_update : ℕ → PartialAccountInput → PartialAccountUpdate
  partial_update id p = record {
    display_name = p.display_name;
    credentials = option_map (encrypt id) p.password;
    server = p.server;
    username = p.username;
  }

  -- the transaction of `update_account`
  unfoldable pub update_body : ℕ → ℕ → ℕ → PartialAccountInput → Sql Accounts Account
  unfolding owned_account apply_to partial_update update raise
  update_body user id expected_version p = do
    existing ← owned_account user id
    if not (existing.version == expected_version)
        then raise (repository_error RepositoryError.conflict)
        else update now (apply_to (partial_update id p) existing)

  -- `update_account`
  unfoldable pub update_account :
      ℕ → ℕ → ℕ → PartialAccountInput → Accounting → Result Account × Accounting
  unfolding validate_update update_body
  update_account user id expected_version p s = elim (validate_update p) [
    | err e ↦ (err e, s)
    | ok _ ↦ run (update_body user id expected_version p) s
  ]

  -- the transaction of `enable` and `disable`
  unfoldable pub switch_body : ℕ → ℕ → Bool → AccountStatus → Sql Accounts Account
  unfolding owned_account set_enabled set_status pure
  switch_body user id enabled status = do
    account ← owned_account user id
    _ ← set_enabled now id enabled
    _ ← set_status now id status none
    pure account

  -- `enable`
  unfoldable pub enable : ℕ → ℕ → Accounting → Result Account × Accounting
  unfolding switch_body run_and_notify
  enable user id = run_and_notify (switch_body user id true pending_first_sync)

  -- `disable`
  unfoldable pub disable : ℕ → ℕ → Accounting → Result Account × Accounting
  unfolding switch_body run_and_notify
  disable user id = run_and_notify (switch_body user id false disabled)

-- `set_status`
unfoldable pub service_set_status :
    ℕ → ℕ → AccountStatus → Option Text → Accounting → Result (Unit {0}) × Accounting
unfolding set_status run_and_notify
service_set_status now id status last_error = run_and_notify (set_status now id status last_error)

-- `get_account`
unfoldable pub get_account : ℕ → ℕ → Accounting → Result Account × Accounting
unfolding owned_account
get_account user id s =
    let (r, tx') = read_only_transaction (owned_account user id) s.tx in (r, record s { tx = tx' })

-- `list_accounts`
unfoldable pub list_accounts : ℕ → Accounting → Result (List Account) × Accounting
unfolding list_for_user
list_accounts user s =
    let (r, tx') = read_only_transaction (list_for_user user) s.tx in (r, record s { tx = tx' })

-- `list_enabled`
unfoldable pub service_list_enabled : Accounting → Result (List Account) × Accounting
unfolding list_enabled
service_list_enabled s =
    let (r, tx') = read_only_transaction list_enabled s.tx in (r, record s { tx = tx' })

-- `delete_account`
unfoldable pub delete_account : ℕ → ℕ → Accounting → Result Account × Accounting
unfolding owned_account delete
delete_account user id s =
    let body = owned_account user id >>= delete in
    let (r, s') = run body s in
    elim r [
      | err e ↦ (err e, s')
      | ok a ↦ (
        ok a,
        record s' {
          cleanups = raw_storage a.id ∷ attachment_storage a.id ∷ search_index a.id ∷ s'.cleanups;
          notified = s'.notified + 1;
        },
      )
    ]

-- `decrypt_credentials`, where `decrypt` may fail
unfoldable pub decrypt_credentials :
    (ℕ → Text → Result Text) → ℕ → ℕ → Accounting → Result Text × Accounting
unfolding get_account
decrypt_credentials decrypt user id s =
    let (r, s') = get_account user id s in
    elim r [ err e ↦ (err e, s') | ok a ↦ (decrypt id a.credentials, s') ]
