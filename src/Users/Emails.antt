-- ===== src/Users/Emails.antt =====
-- The e-mail addresses of the users in crates/database/src/adapters/user.rs, which its conversion
-- of a row expects to be valid.
use mail_keep.Base.{
  Text, text_eq, text_eq_sound, ℕ, ◌≡◌, refl, inl, inr, Bool, true, not, List, [], ◌∷◌, ◌==◌, ◌&&◌,
  any, All, All-append, arith, Bool-cases,
}
use mail_keep.Sql.{Result, ok, err, Tx}
use mail_keep.Sql.Table.{select, update_many}
use mail_keep.Sql.Keeps.{
  Keeps, raise-Keeps, statement-Keeps, query-Keeps, ok_or-Keeps, lift-Keeps, if-Keeps, bind-Keeps,
  transaction-Keeps,
}
use mail_keep.Users.{
  User, NewUser, Capabilities, has_at, new_user, is_user_changed, user_before_save,
}
use mail_keep.Users.Store.{
  UserTable, user_row, collides, insert_user, add_user, changed_user, write_user, update_user,
  delete_user, find_user,
}
use mail_keep.Users.Service.{
  service_add_user, service_update_user, delete_body, service_delete_user,
}
use mail_keep.Users.Login.{new_user_parts}

-- Every address of the table is one that `EmailAddress::new` takes.
unfoldable pub ValidEmails : UserTable → Type 0
unfolding has_at
ValidEmails t = All (λ u. has_at u.email_address ≡ true) t

abbrev pub HasAt : User → Type 0
HasAt u = has_at u.email_address ≡ true

select-ValidEmails : (p : User → Bool) (t : UserTable) → All HasAt t → All HasAt (select p t)
select-ValidEmails p [] h = h
select-ValidEmails p (x ∷ t) (e, h) = elim (Bool-cases (p x)) [
  | inl q ↦ rw q (e, select-ValidEmails p t h)
  | inr q ↦ rw q (select-ValidEmails p t h)
]

update-ValidEmails :
    (p : User → Bool) (u : User) (t : UserTable)
    → HasAt u
    → All HasAt t
    → All HasAt (update_many p (λ _. u) t)
update-ValidEmails p u [] k h = h
update-ValidEmails p u (x ∷ t) k (e, h) = elim (Bool-cases (p x)) [
  | inl q ↦ rw q (k, update-ValidEmails p u t k h)
  | inr q ↦ rw q (e, update-ValidEmails p u t k h)
]

insert-ValidEmails :
    (u : User) (t : UserTable) → HasAt u → All HasAt t → All HasAt (insert_user u t).1
unfolding insert_user
insert-ValidEmails u t k h = elim (Bool-cases (any (collides u) t)) [
  | inl q ↦ rw q h
  | inr q ↦ rw q (All-append HasAt t (u ∷ []) h (k, _))
]

write-ValidEmails :
    (u : User) (t : UserTable) → HasAt u → All HasAt t → All HasAt (write_user u t).1
unfolding write_user
write-ValidEmails u t k h = elim (Bool-cases (any (λ r. not (r.id == u.id) && collides u r) t)) [
  | inl q ↦ rw q h
  | inr q ↦ rw q (update-ValidEmails (λ r. r.id == u.id) u t k h)
]

-- An update that changes no column writes the address that it was given all the same.
changed_user-HasAt : (now : ℕ) (a u : User) → HasAt u → HasAt (changed_user now a u)
unfolding changed_user user_before_save is_user_changed
changed_user-HasAt now a u h = elim (Bool-cases (is_user_changed a u)) [
  | inl q ↦ rw (changed_user, q) h
  | inr q ↦
      let e : text_eq a.email_address u.email_address ≡ true = ground (arith, q) in
      rw (changed_user, q, text_eq_sound a.email_address u.email_address e) h
]

add-Keeps :
    (now id : ℕ) (new : NewUser)
    → has_at new.email_address ≡ true
    → Keeps ValidEmails (service_add_user now id new)
unfolding service_add_user add_user ValidEmails user_row user_before_save
add-Keeps now id new h = transaction-Keeps ValidEmails _ (
    bind-Keeps ValidEmails _ _
      (statement-Keeps ValidEmails _ (λ t k. insert-ValidEmails (user_row now id new) t h k))
      (λ r. lift-Keeps ValidEmails r))

update-Keeps : (now : ℕ) (u : User) → HasAt u → Keeps ValidEmails (service_update_user now u)
unfolding service_update_user update_user ValidEmails
update-Keeps now u h = transaction-Keeps ValidEmails _ (
    if-Keeps ValidEmails (u.id == 0) _ _ (raise-Keeps ValidEmails _) (
      bind-Keeps ValidEmails _ _ (query-Keeps ValidEmails _) (λ o.
        bind-Keeps ValidEmails _ _ (ok_or-Keeps ValidEmails o _) (λ a.
          if-Keeps ValidEmails (not (a.version == u.version)) _ _ (raise-Keeps ValidEmails _) (
            bind-Keeps ValidEmails _ _
              (statement-Keeps ValidEmails _ (λ t k.
                write-ValidEmails (changed_user now a u) t (changed_user-HasAt now a u h) k))
              (λ r. lift-Keeps ValidEmails r))))))

delete-Keeps : (id : ℕ) → Keeps ValidEmails (service_delete_user id)
unfolding service_delete_user delete_body find_user delete_user ValidEmails
delete-Keeps id = transaction-Keeps ValidEmails _ (
    bind-Keeps ValidEmails _ _
      (if-Keeps ValidEmails (id == 0) _ _ (raise-Keeps ValidEmails _) (query-Keeps ValidEmails _))
      (λ o. bind-Keeps ValidEmails _ _ (ok_or-Keeps ValidEmails o _) (λ u.
        if-Keeps ValidEmails (u.id == 0) _ _ (raise-Keeps ValidEmails _) (
          bind-Keeps ValidEmails _ _ (query-Keeps ValidEmails _) (λ p.
            bind-Keeps ValidEmails _ _ (ok_or-Keeps ValidEmails p _) (λ a.
              if-Keeps ValidEmails (not (a.version == u.version)) _ _ (raise-Keeps ValidEmails _) (
                statement-Keeps ValidEmails _
                  (λ t k. select-ValidEmails (λ r. not (r.id == u.id)) t k))))))))

-- A call that changes the users: a new one from what a client typed in, an update, a deletion.
pub data UserCall : Type 0 where
  sign_up : ℕ → ℕ → Text → Text → Text → Capabilities → Text → Bool → UserCall
  revise : ℕ → User → UserCall
  remove : ℕ → UserCall

-- The address of an update is an `EmailAddress`.
unfoldable pub HasValidAddress : UserCall → Type 0
unfolding has_at
HasValidAddress (sign_up _ _ _ _ _ _ _ _) = Unit {0}
HasValidAddress (revise now u) = has_at u.email_address ≡ true
HasValidAddress (remove id) = Unit {0}

module _ (encrypt_password : Text → Result Text) where
  abbrev pub sign_up_new : ℕ → ℕ → Result NewUser → Tx UserTable → Tx UserTable
  sign_up_new now id (err e) s = s
  sign_up_new now id (ok new) s = (service_add_user now id new s).1

  -- the state after one call of the service
  unfoldable pub call : UserCall → Tx UserTable → Tx UserTable
  unfolding new_user service_add_user service_update_user service_delete_user
  call (sign_up now id name password email caps full change) s =
      sign_up_new now id (new_user encrypt_password name password email caps full change) s
  call (revise now u) s = (service_update_user now u s).1
  call (remove id) s = (service_delete_user id s).1

  unfoldable pub call_all : List UserCall → Tx UserTable → Tx UserTable
  unfolding call
  call_all [] s = s
  call_all (c ∷ cs) s = call_all cs (call c s)

  sign_up-ValidEmails :
      (now id : ℕ) (r : Result NewUser) (s : Tx UserTable)
      → ((new : NewUser) → r ≡ ok new → has_at new.email_address ≡ true)
      → ValidEmails s.tables
      → ValidEmails (sign_up_new now id r s).tables
  sign_up-ValidEmails now id (err e) s k h = h
  sign_up-ValidEmails now id (ok new) s k h = (add-Keeps now id new (k new refl)).keeps s h

  call-ValidEmails :
      (c : UserCall) (s : Tx UserTable)
      → HasValidAddress c
      → ValidEmails s.tables
      → ValidEmails (call c s).tables
  unfolding call HasValidAddress
  call-ValidEmails (sign_up now id name password email caps full change) s v h =
      sign_up-ValidEmails now id (new_user encrypt_password name password email caps full change) s
        (λ new e. (new_user_parts encrypt_password name password email caps full change new e).2) h
  call-ValidEmails (revise now u) s v h = (update-Keeps now u v).keeps s h
  call-ValidEmails (remove id) s v h = (delete-Keeps id).keeps s h

  -- However users are added from typed-in data, updated and deleted, and whatever fails, every
  -- stored address is one that `EmailAddress::new` takes. This holds at the start, and the addresses
  -- of the updates are `EmailAddress`es.
  pub call_all-ValidEmails :
      (cs : List UserCall) (s : Tx UserTable)
      → All HasValidAddress cs
      → ValidEmails s.tables
      → ValidEmails (call_all cs s).tables
  unfolding call_all
  call_all-ValidEmails [] s v h = h
  call_all-ValidEmails (c ∷ cs) s (v, w) h =
      call_all-ValidEmails cs (call c s) w (call-ValidEmails c s v h)
