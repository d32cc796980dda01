-- ===== src/Users/Login.antt =====
-- Who can log in: laws of `is_valid_login` in crates/core/src/auth/service.rs.
use mail_keep.Base.{
  Text, text_eq, text_eq_refl, ℕ, ◌≡◌, refl, sym, ap, ◌∙◌, inl, inr, Bool, true, false, Option,
  none, some, [], ◌∷◌, ◌++◌, any, all, In, ◌⊎◌, arith, Bool-cases,
}
use mail_keep.Search.Query.{is_whitespace}
use mail_keep.Error.{Error}
use mail_keep.Sql.{
  Result, ok, err, Tx, quiet, transaction, read_only_transaction, finish, statement, query, lift,
  pure,
}
use mail_keep.Sql.Table.{find_first, find_first-matches}
use mail_keep.Sql.Reads.{
  Reads, pure-Reads, query-Reads, bind-Reads, read_only_transaction-Reads, answer_of,
}
use mail_keep.Users.{User, NewUser, Capabilities, new_user, has_at, new_email, user_before_save}
use mail_keep.Users.Store.{
  UserTable, user_row, collides, insert_user, add_user, lower_name_eq, find_by_username,
}
use mail_keep.Users.Service.{service_add_user}
use mail_keep.Users.Auth.{check_password, checked, is_valid_login}

find_first-In : (p : User → Bool) (t : UserTable) (u : User) → find_first p t ≡ some u → In u t
find_first-In p [] u h = ground arith
find_first-In p (x ∷ t) u h = elim (Bool-cases (p x)) [
  | inl e ↦ inl (ground (arith, e, h))
  | inr e ↦ inr (find_first-In p t u (rw e at h))
]

find_first-last :
    (p : User → Bool) (t : UserTable) (u : User)
    → find_first p t ≡ none
    → p u ≡ true
    → find_first p (t ++ u ∷ []) ≡ some u
find_first-last p [] u h e = rw e refl
find_first-last p (x ∷ t) u h e = ground (arith, find_first-last p t u)

module _ (lower to_lowercase : Text → Text) (verify : Text → Text → Bool) where
  abbrev pub first_named : Text → UserTable → Option User
  first_named name t = find_first (lower_name_eq lower to_lowercase name) t

  login-Reads :
      (name password : Text) (t : UserTable)
      → Reads t
          (λ o. o ≡ checked lower to_lowercase verify password (first_named name t))
          (is_valid_login lower to_lowercase verify name password)
  unfolding is_valid_login find_by_username check_password
  login-Reads name password t =
      bind-Reads t (λ o. o ≡ first_named name t)
        (λ o. o ≡ checked lower to_lowercase verify password (first_named name t)) _ _
        (read_only_transaction-Reads t (λ o. o ≡ first_named name t) _
          (query-Reads t (λ o. o ≡ first_named name t)
            (find_first (lower_name_eq lower to_lowercase name)) refl))
        (λ o e.
          pure-Reads t (λ o. o ≡ checked lower to_lowercase verify password (first_named name t)) _
            (ap (checked lower to_lowercase verify password) e))

  accepted_user :
      (password : Text) (o : Option User) (u : User)
      → checked lower to_lowercase verify password o ≡ some u
      → (o ≡ some u) × (verify u.password_hash password ≡ true)
  unfolding check_password
  accepted_user password none u h = ground arith
  accepted_user password (some x) u h = elim (Bool-cases (verify x.password_hash password)) [
    | inl e ↦ let q : x ≡ u = ground (arith, e, h) in (ap (λ z. some z) q, rw q at e)
    | inr e ↦ ground (arith, e, h)
  ]

  -- Whoever is let in, whatever fails, is a stored user with the name that was given but for its
  -- case, whose stored hash accepts the password.
  pub is_valid_login_safe :
      (name password : Text) (s : Tx UserTable) (u : User)
      → (is_valid_login lower to_lowercase verify name password s).0 ≡ ok (some u)
      → In u s.tables
        × (text_eq (lower u.username) (to_lowercase name) ≡ true)
        × (verify u.password_hash password ≡ true)
  unfolding is_valid_login
  is_valid_login_safe name password s u h =
      let e : some u ≡ checked lower to_lowercase verify password (first_named name s.tables) =
        answer_of s.tables
          (λ o. o ≡ checked lower to_lowercase verify password (first_named name s.tables))
          (is_valid_login lower to_lowercase verify name password) s.faults (some u)
          (login-Reads name password s.tables) h in
      let (found, accepted) = accepted_user password (first_named name s.tables) u (sym e) in
      (
        find_first-In (lower_name_eq lower to_lowercase name) s.tables u found,
        find_first-matches (lower_name_eq lower to_lowercase name) s.tables u found,
        accepted,
      )

Result-cases : {A : Type 0} (r : Result A) → ((a : A) × (r ≡ ok a)) ⊎ ((e : Error) × (r ≡ err e))
Result-cases (ok a) = inl (a, refl)
Result-cases (err e) = inr (e, refl)

module _ (encrypt_password : Text → Result Text) where
  -- what `NewUser::new` puts into the user that it makes
  pub new_user_parts :
      (name password email : Text) (caps : Capabilities) (full : Text) (change : Bool)
      (new : NewUser)
      → new_user encrypt_password name password email caps full change ≡ ok new
      → (new.username ≡ name)
        × (encrypt_password password ≡ ok new.password_hash)
        × (has_at new.email_address ≡ true)
  unfolding new_user new_email
  new_user_parts name password email caps full change new h =
      elim (Bool-cases (all is_whitespace full)) [
        | inl b ↦ ground (arith, rw b at h)
        | inr b ↦ elim (Result-cases (encrypt_password password)) [
          | inr (e, q) ↦ ground (arith, rw (b, q) at h)
          | inl (hash, q) ↦ elim (Bool-cases (has_at email)) [
            | inr at ↦ ground (arith, rw (b, q, at) at h)
            | inl at ↦
                let made : NewUser = record {
                  username = name;
                  full_name = full;
                  password_hash = hash;
                  email_address = email;
                  capabilities = caps;
                  change_password_on_login = change;
                } in
                let k : ok made ≡ ok new = rw (b, q, at) at h in
                (ground (arith, k), q ∙ ground (arith, k), ground (arith, k, at))
          ]
        ]
      ]

-- what `add_user` does where no row collides with the new one
add-quiet :
    (now id : ℕ) (new : NewUser) (t : UserTable)
    → any (collides (user_row now id new)) t ≡ false
    → service_add_user now id new (quiet t)
      ≡ (ok (user_row now id new), quiet (t ++ user_row now id new ∷ []))
unfolding service_add_user add_user insert_user lift transaction finish statement
add-quiet now id new t free = rw (insert_user, free) refl

module _ (lower to_lowercase : Text → Text) (verify : Text → Text → Bool) where
  login-quiet :
      (name password : Text) (t : UserTable)
      → (is_valid_login lower to_lowercase verify name password (quiet t)).0
        ≡ ok (
            checked lower to_lowercase verify password
              (first_named lower to_lowercase verify name t))
  unfolding is_valid_login find_by_username read_only_transaction query statement pure
  login-quiet name password t = refl

  module _ (encrypt_password : Text → Result Text)
      (verifies : (p hash : Text) → encrypt_password p ≡ ok hash → verify hash p ≡ true) where
    -- A user that `NewUser::new` makes can be added where no row collides with it, and then logs in
    -- under this name with the password, and not with one that the hash refuses. Argon2 accepts the
    -- password that it hashed, no user has the name but for its case, the database and the
    -- standard library agree on the name in lower case, and the database does not fail.
    pub add_user-is_valid_login :
        (now id : ℕ) (name password email full other : Text) (caps : Capabilities) (change : Bool)
        → (new : NewUser) → (t : UserTable)
        → new_user encrypt_password name password email caps full change ≡ ok new
        → any (collides (user_row now id new)) t ≡ false
        → first_named lower to_lowercase verify name t ≡ none
        → lower name ≡ to_lowercase name
        → verify new.password_hash other ≡ false
        → let (added, after) = service_add_user now id new (quiet t) in
          (added ≡ ok (user_row now id new))
          × ((is_valid_login lower to_lowercase verify name password after).0
              ≡ ok (some (user_row now id new)))
          × ((is_valid_login lower to_lowercase verify name other after).0 ≡ ok none)
    unfolding user_row user_before_save check_password
    add_user-is_valid_login now id name password email full other caps change new t made free
          unnamed same refused =
        let (named, hashed, _) =
          new_user_parts encrypt_password name password email caps full change new made in
        let u = user_row now id new in
        let is_named : lower_name_eq lower to_lowercase name u ≡ true =
          rw (named, same) (text_eq_refl (to_lowercase name)) in
        let found = find_first-last (lower_name_eq lower to_lowercase name) t u unnamed is_named in
        let accepted = verifies password new.password_hash hashed in
        rw (add-quiet now id new t free) (
          refl,
          login-quiet name password (t ++ u ∷ [])
              ∙ ap (λ o. ok (checked lower to_lowercase verify password o)) found
              ∙ rw accepted refl,
          login-quiet name other (t ++ u ∷ [])
              ∙ ap (λ o. ok (checked lower to_lowercase verify other o)) found
              ∙ rw refused refl,
        )
