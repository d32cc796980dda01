-- ===== src/Users/Tests.antt =====
-- Users and sessions at concrete inputs.
use mail_keep.Base.{
  Text, codes, text_eq, text_eq_refl, ◌≡◌, refl, ◌⊎◌, Bool, true, false, none, some, List, [], ◌∷◌,
  map, ascii_lower, In, arith,
}
use mail_keep.Error.{Error, connection}
use mail_keep.Sql.{Result, ok, err, Tx, quiet, read_only_transaction, transaction}
use mail_keep.Users.{User, NewUser, admin, super_admin, has_capability, new_user}
use mail_keep.Users.Store.{user_row}
use mail_keep.Users.Service.{service_add_user}
use mail_keep.Users.Sessions.{NewSession, SessionTable}
use mail_keep.Users.Auth.{auth_load, is_valid_login}
use mail_keep.Users.SessionMap.{view}
use mail_keep.Users.SessionRuns.{Command, put, drop, drop_stale, run_all, replay}
use mail_keep.Users.Refinement.{sessions_refine_map}
use mail_keep.Users.Login.{is_valid_login_safe, add_user-is_valid_login}
use mail_keep.Users.Emails.{
  UserCall, sign_up, remove, HasValidAddress, call_all, ValidEmails, call_all-ValidEmails,
}

abbrev no_data : Text → Bool
no_data t = text_eq t (codes "none")

abbrev new_session : NewSession
new_session = record { id = codes "s1"; session = codes "data"; expires_at = 50 }

abbrev some_commands : List Command
some_commands = put 10 new_session ∷ drop (codes "s2") ∷ drop_stale 60 ∷ put 70 new_session ∷ []

-- the second command fails at its commit
abbrev failing : Tx SessionTable
failing = record {
  tables = [];
  faults = none ∷ none ∷ none ∷ none ∷ none ∷ none ∷ some (connection "lost") ∷ [];
}

sessions_refine_map_example :
    let (done, after) = run_all no_data some_commands failing in
    let (all_done, calm) = run_all no_data some_commands (quiet []) in
    (((auth_load (codes "s1") after).0 ≡ ok (replay no_data done (view []) (codes "s1")))
      ⊎ ((e : Error) × ((auth_load (codes "s1") after).0 ≡ err e)))
    × (all_done ≡ some_commands)
    × ((auth_load (codes "s1") calm).0 ≡ ok (replay no_data some_commands (view []) (codes "s1")))
sessions_refine_map_example = sessions_refine_map no_data some_commands failing (codes "s1") tt

-- An expired session goes; stored again, it has a new time of creation.
session_again :
    replay no_data some_commands (view []) (codes "s1")
    ≡ some (record { id = codes "s1"; session = codes "data"; expires_at = 50; created_at = 70 })
unfolding replay
session_again = refl

-- a hash that is the password itself
abbrev toy_hash : Text → Result Text
toy_hash p = ok p

abbrev toy_verify : Text → Text → Bool
toy_verify hash p = text_eq p hash

abbrev same_text : Text → Text
same_text t = t

abbrev new_ann : NewUser
new_ann = record {
  username = codes "ann";
  full_name = codes "Ann";
  password_hash = codes "pw";
  email_address = codes "a@b";
  capabilities = admin ∷ [];
  change_password_on_login = false;
}

abbrev ann : User
ann = record {
  id = 7;
  version = 1;
  username = codes "ann";
  full_name = codes "Ann";
  password_hash = codes "pw";
  email_address = codes "a@b";
  capabilities = admin ∷ [];
  change_password_on_login = false;
  created_at = 5;
  updated_at = 5;
}

toy_verifies : (p hash : Text) → toy_hash p ≡ ok hash → toy_verify hash p ≡ true
toy_verifies p hash e = let q : p ≡ hash = ground (arith, e) in rw q (text_eq_refl hash)

add_user-is_valid_login_example :
    let (added, after) = service_add_user 5 7 new_ann (quiet []) in
    (added ≡ ok (user_row 5 7 new_ann))
    × ((is_valid_login same_text same_text toy_verify (codes "ann") (codes "pw") after).0
        ≡ ok (some (user_row 5 7 new_ann)))
    × ((is_valid_login same_text same_text toy_verify (codes "ann") (codes "px") after).0 ≡ ok none)
unfolding new_user text_eq
add_user-is_valid_login_example =
    add_user-is_valid_login same_text same_text toy_verify toy_hash toy_verifies 5 7 (codes "ann")
      (codes "pw") (codes "a@b") (codes "Ann") (codes "px") (admin ∷ []) false new_ann [] refl refl
      refl refl refl

is_valid_login_safe_example :
    In ann (ann ∷ [])
    × (text_eq (same_text (codes "ann")) (same_text (codes "ann")) ≡ true)
    × (toy_verify (codes "pw") (codes "pw") ≡ true)
unfolding is_valid_login read_only_transaction text_eq
is_valid_login_safe_example =
    is_valid_login_safe same_text same_text toy_verify (codes "ann") (codes "pw") (quiet (ann ∷ []))
      ann refl

abbrev some_calls : List UserCall
some_calls =
    sign_up 5 7 (codes "ann") (codes "pw") (codes "a@b") [] (codes "Ann") false
    ∷ sign_up 6 8 (codes "bob") (codes "pw") (codes "nowhere") [] (codes "Bob") false
    ∷ remove 9
    ∷ []

call_all-ValidEmails_example : ValidEmails (call_all toy_hash some_calls (quiet [])).tables
unfolding HasValidAddress ValidEmails
call_all-ValidEmails_example =
    call_all-ValidEmails toy_hash some_calls (quiet []) (tt, (tt, (tt, tt))) tt

-- Only a super admin has every capability.
admin_capabilities : (has_capability ann admin ≡ true) × (has_capability ann super_admin ≡ false)
unfolding has_capability
admin_capabilities = (refl, refl)

-- A name that differs only in its case can be added, and is shadowed when it is looked up.
abbrev to_lower : Text → Text
to_lower t = map ascii_lower t

abbrev new_shadow : NewUser
new_shadow = record new_ann {
  username = codes "Ann";
  password_hash = codes "px";
  email_address = codes "c@d";
}

shadowed :
    let after = (service_add_user 6 8 new_shadow (quiet (ann ∷ []))).1 in
    (after.tables ≡ ann ∷ user_row 6 8 new_shadow ∷ [])
    × ((is_valid_login to_lower to_lower toy_verify (codes "Ann") (codes "px") after).0 ≡ ok none)
unfolding service_add_user is_valid_login read_only_transaction transaction text_eq
shadowed = (refl, refl)
