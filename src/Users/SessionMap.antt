-- ===== src/Users/SessionMap.antt =====
-- The sessions of crates/core/src/auth/service.rs as a finite map from ids to sessions.
use mail_keep.Base.{
  Text, text_eq, text_eq_refl, text_eq_sound, text_eq_comm, ℕ, inl, inr, ◌≡◌, refl, ◌∙◌, Bool, true,
  false, not, Option, none, some, [], ◌∷◌, ◌++◌, if◌then◌else◌, any, option_map, arith, Bool-cases,
  Option-cases,
}
use mail_keep.Sql.Table.{select, update_many, delete_many}
use mail_keep.Users.Sessions.{
  Session, NewSession, SessionTable, has_id, find_session, first_session, renew, insert_or_update,
}

-- What the abstract view keeps of the table.
abbrev pub SessionMap : Type 0
SessionMap = Text → Option Session

abbrev pub view : SessionTable → SessionMap
view t id = find_session id t

-- the session that `store` leaves under its id
abbrev pub stored : ℕ → NewSession → Option Session → Session
stored now new none = first_session now new
stored now new (some s) = renew new s

abbrev pub unless : (Session → Bool) → Option Session → Option Session
unless p none = none
unless p (some s) = if p s then none else some s

-- the primary key
abbrev pub UniqueSession : SessionTable → Type 0
UniqueSession [] = Unit {0}
UniqueSession (s ∷ t) = (find_session s.id t ≡ none) × UniqueSession t

apart : (a b c : Text) → text_eq a b ≡ true → text_eq c b ≡ false → text_eq a c ≡ false
apart a b c h k = rw (text_eq_sound a b h) (text_eq_comm b c ∙ k)

found_nowhere :
    (id : Text) (t : SessionTable) → any (has_id id) t ≡ false → find_session id t ≡ none
found_nowhere id [] h = refl
found_nowhere id (x ∷ t) h = ground (arith, found_nowhere id t)

find_renewed :
    (new : NewSession) (t : SessionTable)
    → find_session new.id (update_many (has_id new.id) (renew new) t)
      ≡ option_map (renew new) (find_session new.id t)
find_renewed new [] = refl
find_renewed new (x ∷ t) = ground (arith, find_renewed new t)

find_other :
    (new : NewSession) (i : Text) (t : SessionTable)
    → text_eq i new.id ≡ false
    → find_session i (update_many (has_id new.id) (renew new) t) ≡ find_session i t
find_other new i [] ne = refl
find_other new i (x ∷ t) ne = ground (arith, find_other new i t, apart x.id new.id i)

find_last :
    (i : Text) (t : SessionTable) (r : Session)
    → find_session i (t ++ r ∷ [])
      ≡ elim (find_session i t) [ none ↦ if has_id i r then some r else none | some x ↦ some x ]
find_last i [] r = refl
find_last i (x ∷ t) r = ground (arith, find_last i t r)

renewed_some :
    (id : Text) (t : SessionTable)
    → any (has_id id) t ≡ true
    → (s : Session) × (find_session id t ≡ some s)
renewed_some id [] h = ground arith
renewed_some id (x ∷ t) h = elim (Bool-cases (has_id id x)) [
  | inl e ↦ (x, rw e refl)
  | inr e ↦ let (s, q) = renewed_some id t (rw e at h) in (s, rw e q)
]

pub find_stored_same :
    (now : ℕ) (new : NewSession) (t : SessionTable)
    → find_session new.id (insert_or_update now new t)
      ≡ some (stored now new (find_session new.id t))
unfolding insert_or_update
find_stored_same now new t = elim (Bool-cases (any (has_id new.id) t)) [
  | inl e ↦ let (s, q) = renewed_some new.id t e in rw (e, find_renewed new t, q) refl
  | inr e ↦
      rw
        (
          e,
          find_last new.id t (first_session now new),
          found_nowhere new.id t e,
          text_eq_refl new.id,
        )
        refl
]

pub find_stored_other :
    (now : ℕ) (new : NewSession) (i : Text) (t : SessionTable)
    → text_eq i new.id ≡ false
    → find_session i (insert_or_update now new t) ≡ find_session i t
unfolding insert_or_update
find_stored_other now new i t ne = elim (Bool-cases (any (has_id new.id) t)) [
  | inl e ↦ rw e (find_other new i t ne)
  | inr e ↦ elim (Option-cases (find_session i t)) [
    | inl q ↦
        rw (e, find_last i t (first_session now new), q) (ground (arith, text_eq_comm new.id i, ne))
    | inr (x, q) ↦ rw (e, find_last i t (first_session now new), q) refl
  ]
]

pub find_deleted_same :
    (id : Text) (t : SessionTable) → find_session id (delete_many (has_id id) t) ≡ none
find_deleted_same id [] = refl
find_deleted_same id (x ∷ t) = ground (arith, find_deleted_same id t)

pub find_deleted_other :
    (id i : Text) (t : SessionTable)
    → text_eq i id ≡ false
    → find_session i (delete_many (has_id id) t) ≡ find_session i t
find_deleted_other id i [] ne = refl
find_deleted_other id i (x ∷ t) ne = ground (arith, find_deleted_other id i t, apart x.id id i)

absent_selected :
    (p : Session → Bool) (i : Text) (t : SessionTable)
    → find_session i t ≡ none
    → find_session i (select p t) ≡ none
absent_selected p i [] h = refl
absent_selected p i (x ∷ t) h = ground (arith, absent_selected p i t)

pub select-UniqueSession :
    (p : Session → Bool) (t : SessionTable) → UniqueSession t → UniqueSession (select p t)
select-UniqueSession p [] u = u
select-UniqueSession p (x ∷ t) (fresh, u) = elim (Bool-cases (p x)) [
  | inl e ↦ rw e (absent_selected p x.id t fresh, select-UniqueSession p t u)
  | inr e ↦ rw e (select-UniqueSession p t u)
]

pub find_unless :
    (p : Session → Bool) (i : Text) (t : SessionTable)
    → UniqueSession t
    → find_session i (delete_many p t) ≡ unless p (find_session i t)
find_unless p i [] u = refl
find_unless p i (x ∷ t) (fresh, u) = elim (Bool-cases (text_eq x.id i)) [
  | inl e ↦
      let absent : find_session i t ≡ none = rw (text_eq_sound x.id i e) at fresh in
      ground (arith, e, absent, absent_selected (λ s. not (p s)) i t)
  | inr e ↦ ground (arith, e, find_unless p i t u)
]

absent_renewed :
    (new : NewSession) (i : Text) (t : SessionTable)
    → find_session i t ≡ none
    → find_session i (update_many (has_id new.id) (renew new) t) ≡ none
absent_renewed new i [] h = refl
absent_renewed new i (x ∷ t) h = ground (arith, absent_renewed new i t)

renewed-UniqueSession :
    (new : NewSession) (t : SessionTable)
    → UniqueSession t
    → UniqueSession (update_many (has_id new.id) (renew new) t)
renewed-UniqueSession new [] u = u
renewed-UniqueSession new (x ∷ t) (fresh, u) = (
  elim (Bool-cases (has_id new.id x)) [
    | inl e ↦ rw e (absent_renewed new x.id t fresh)
    | inr e ↦ rw e (absent_renewed new x.id t fresh)
  ],
  renewed-UniqueSession new t u,
)

last-UniqueSession :
    (t : SessionTable) (r : Session)
    → UniqueSession t
    → any (has_id r.id) t ≡ false
    → UniqueSession (t ++ r ∷ [])
last-UniqueSession [] r u h = (refl, tt)
last-UniqueSession (x ∷ t) r (fresh, u) h = (
  rw (find_last x.id t r, fresh) (ground (arith, text_eq_comm r.id x.id, h)),
  last-UniqueSession t r u (ground (arith, h)),
)

pub stored-UniqueSession :
    (now : ℕ) (new : NewSession) (t : SessionTable)
    → UniqueSession t
    → UniqueSession (insert_or_update now new t)
unfolding insert_or_update
stored-UniqueSession now new t u = elim (Bool-cases (any (has_id new.id) t)) [
  | inl e ↦ rw e (renewed-UniqueSession new t u)
  | inr e ↦ rw e (last-UniqueSession t (first_session now new) u e)
]
