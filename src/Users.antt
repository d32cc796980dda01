-- ===== src/Users.antt =====
-- crates/core/src/user/model/user.rs and crates/core/src/types: users, what they may do, and their
-- e-mail addresses. The row of the table is the model's record alike: the token is a function of the
-- id, an `EmailAddress` is its text, and the capabilities stand in the order in which the set is
-- iterated, which is the one of the JSON text. Argon2 is a parameter where a password is hashed.
pub mod Store
pub mod Service
pub mod Sessions
pub mod Auth
pub mod SessionMap
pub mod SessionRuns
pub mod Refinement
pub mod Login
pub mod Emails
mod Tests
use mail_keep.Base.{
  Text, text_eq, is_empty, ℕ, ◌+◌, Bool, true, false, ◌&&◌, ◌||◌, not, Option, none, some, List, [],
  ◌∷◌, ◌==◌, if◌then◌else◌, any, all,
}
use mail_keep.Error.{validation}
use mail_keep.Sql.{Result, ok, err}
use mail_keep.Search.Query.{is_whitespace}

-- `Capability`
pub data Capability : Type 0 where
  admin super_admin : Capability

abbrev pub capability_eq : Capability → Capability → Bool
capability_eq admin admin = true
capability_eq super_admin super_admin = true
capability_eq _ _ = false

-- `Capabilities`, a hash set
abbrev pub Capabilities : Type 0
Capabilities = List Capability

abbrev pub contains : Capabilities → Capability → Bool
contains cs c = any (capability_eq c) cs

-- `User`
pub record User : Type 0 where
  pub id : ℕ
  pub version : ℕ
  pub username : Text
  pub full_name : Text
  pub password_hash : Text
  pub email_address : Text
  pub capabilities : Capabilities
  pub change_password_on_login : Bool
  pub created_at : ℕ
  pub updated_at : ℕ

-- `NewUser`
pub record NewUser : Type 0 where
  pub username : Text
  pub full_name : Text
  pub password_hash : Text
  pub email_address : Text
  pub capabilities : Capabilities
  pub change_password_on_login : Bool

-- `User::has_capability`
unfoldable pub has_capability : User → Capability → Bool
has_capability u c =
    contains u.capabilities c
    || contains u.capabilities super_admin
    || (not (capability_eq c super_admin) && contains u.capabilities admin)

-- `email.contains('@')`
unfoldable pub has_at : Text → Bool
has_at email = any (λ c. c == b'@') email

-- `EmailAddress::new`
unfoldable pub new_email : Text → Result Text
unfolding has_at
new_email email = if not (has_at email) then err (validation "Invalid email format") else ok email

-- `NewUser::new`, where `encrypt_password` may fail
unfoldable pub new_user :
    (Text → Result Text) → Text → Text → Text → Capabilities → Text → Bool → Result NewUser
unfolding is_whitespace new_email
new_user encrypt_password username password email capabilities full_name change =
    if all is_whitespace full_name
    then err (validation "Full name is required")
    else elim (encrypt_password password) [
      | err e ↦ err e
      | ok hash ↦ elim (new_email email) [
        | err e ↦ err e
        | ok address ↦ ok (record {
          username = username;
          full_name = full_name;
          password_hash = hash;
          email_address = address;
          capabilities = capabilities;
          change_password_on_login = change;
        })
      ]
    ]

-- `PartialUserUpdate`
pub record PartialUserUpdate : Type 0 where
  pub password_hash : Option Text
  pub email_address : Option Text
  pub capabilities : Option Capabilities
  pub full_name : Option Text
  pub change_password_on_login : Option Bool

-- `PartialUserUpdate::new`
unfoldable pub new_user_update :
    Option Text → Option Text → Option Capabilities → Result PartialUserUpdate
unfolding new_email
new_user_update password_hash none capabilities = ok (record {
  password_hash = password_hash;
  email_address = none;
  capabilities = capabilities;
  full_name = none;
  change_password_on_login = none;
})
new_user_update password_hash (some email) capabilities = elim (new_email email) [
  | err e ↦ err e
  | ok address ↦ ok (record {
    password_hash = password_hash;
    email_address = some address;
    capabilities = capabilities;
    full_name = none;
    change_password_on_login = none;
  })
]

abbrev pub is_none {ℓ} : {A : Type ℓ} → Option A → Bool
is_none none = true
is_none (some a) = false

-- `PartialUserUpdate::is_empty`
unfoldable pub is_empty_update : PartialUserUpdate → Bool
is_empty_update p =
    is_none p.password_hash
    && (is_none p.email_address
        && (is_none p.capabilities && (is_none p.full_name && is_none p.change_password_on_login)))

abbrev pub or_keep {ℓ} : {A : Type ℓ} → Option A → A → A
or_keep none a = a
or_keep (some b) a = b

-- `PartialUserUpdate::apply_to`
unfoldable pub apply_user_update : PartialUserUpdate → User → User
apply_user_update p u = record u {
  password_hash = or_keep p.password_hash u.password_hash;
  email_address = or_keep p.email_address u.email_address;
  capabilities = or_keep p.capabilities u.capabilities;
  full_name = or_keep p.full_name u.full_name;
  change_password_on_login = or_keep p.change_password_on_login u.change_password_on_login;
}

abbrev pub list_eq : Capabilities → Capabilities → Bool
list_eq [] [] = true
list_eq (a ∷ xs) (b ∷ ys) = capability_eq a b && list_eq xs ys
list_eq _ _ = false

-- The ActiveModel of `update_user` has a column set: one of those that it compares differs.
unfoldable pub is_user_changed : User → User → Bool
unfolding text_eq
is_user_changed a b =
    not (text_eq a.username b.username)
    || not (text_eq a.full_name b.full_name)
    || not (text_eq a.password_hash b.password_hash)
    || not (text_eq a.email_address b.email_address)
    || not (list_eq a.capabilities b.capabilities)
    || (if a.change_password_on_login
        then not b.change_password_on_login
        else b.change_password_on_login)

-- `before_save` on a model with a column set
unfoldable pub user_before_save : ℕ → User → User
user_before_save now u = record u { version = u.version + 1; updated_at = now }
