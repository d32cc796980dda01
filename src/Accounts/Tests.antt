-- ===== src/Accounts/Tests.antt =====
-- Accounts at concrete inputs.
use mail_keep.Base.{text_eq, Text, codes, is_empty, true, ℕ, ◌≡◌, refl, none, some, [], ◌∷◌, arith}
use mail_keep.Sql.{Result, ok, err}
use mail_keep.Search.Query.{is_whitespace}
use mail_keep.Accounts.{is_changed, apply_to, Account, AccountStatus, as_str, from_db_str, tls}
use mail_keep.Accounts.Service.{
  PartialAccountInput, validate_update, update_account, partial_update, CreateAccountParams,
  validate_create, create_account, decrypt_credentials, blank,
}
use mail_keep.Error.{RepositoryError, repository_error}
use mail_keep.Accounts.Versions.{next_row, update_account_conflict}
use mail_keep.Accounts.Laws.{calm, create_account-decrypt_credentials}

-- a cipher that puts the id in front of the text
abbrev seal : ℕ → Text → Text
seal i t = i ∷ t

abbrev unseal : ℕ → Text → Result Text
unseal i [] = ok []
unseal i (c ∷ t) = ok t

abbrev params : CreateAccountParams
params = record {
  user_id = 4;
  display_name = codes "Mail";
  email_address = codes "a@b.c";
  server = record { host = codes "b.c"; port = 993; mode = tls };
  username = codes "a";
  password = codes "secret";
}

params_valid : validate_create params ≡ ok tt
unfolding validate_create blank is_whitespace is_empty
params_valid = refl

create_account-decrypt_credentials_example :
    (decrypt_credentials unseal 4 12 (create_account seal 100 12 params (calm [] 0)).1).0
    ≡ ok (codes "secret")
create_account-decrypt_credentials_example =
    create_account-decrypt_credentials seal 100 unseal (λ i t. refl) 12 params [] params_valid
      (λ e. omega (arith, e)) refl

status_kept : (s : AccountStatus) → from_db_str (as_str s) ≡ some s
unfolding as_str from_db_str
status_kept AccountStatus.pending_first_sync = refl
status_kept AccountStatus.syncing = refl
status_kept AccountStatus.idle = refl
status_kept AccountStatus.error = refl
status_kept AccountStatus.disabled = refl

abbrev an_account : Account
an_account = record {
  id = 12;
  version = 3;
  user_id = 4;
  display_name = codes "Mail";
  email_address = codes "a@b.c";
  server = record { host = codes "b.c"; port = 993; mode = tls };
  username = codes "a";
  credentials = seal 12 (codes "secret");
  enabled = true;
  status = AccountStatus.idle;
  last_error = none;
  last_synced_at = none;
  created_at = 5;
  updated_at = 6;
}

abbrev renamed : Text → PartialAccountInput
renamed t = record { display_name = some t; password = none; server = none; username = none }

renamed_valid : validate_update (renamed (codes "Post")) ≡ ok tt
unfolding validate_update blank is_whitespace is_empty
renamed_valid = refl

renamed_changes :
    is_changed an_account
      (apply_to (partial_update seal 100 12 (renamed (codes "Post"))) an_account)
    ≡ true
unfolding is_changed apply_to partial_update text_eq
renamed_changes = refl

update_account_conflict_example :
    let first =
      update_account seal 100 4 12 3 (renamed (codes "Post")) (calm (an_account ∷ []) 0) in
    let second = update_account seal 100 4 12 3 (renamed (codes "Post")) first.1 in
    (first.0 ≡ ok (next_row seal 100 12 (renamed (codes "Post")) an_account))
    × ((next_row seal 100 12 (renamed (codes "Post")) an_account).version ≡ 4)
    × (second.0 ≡ err (repository_error RepositoryError.conflict))
update_account_conflict_example =
    update_account_conflict seal 100 4 12 (renamed (codes "Post")) (renamed (codes "Post"))
      (an_account ∷ []) an_account renamed_valid renamed_valid (λ e. omega (arith, e)) refl refl
      renamed_changes
