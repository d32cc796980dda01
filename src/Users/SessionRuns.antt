-- ===== src/Users/SessionRuns.antt =====
-- Runs of the auth service of crates/core/src/auth/service.rs against a finite map of sessions.
use mail_keep.Base.{
  Text, text_eq, text_eq_refl, text_eq_sound, ℕ, ◌≡◌, refl, inl, inr, Bool, true, false, not,
  Option, none, some, List, [], ◌∷◌, if◌then◌else◌, Bool-cases,
}
use mail_keep.Sql.{ok, err, Tx, Sql}
use mail_keep.Sql.Yields.{
  Yields, pure-Yields, query-Yields, statement-Yields, ok_or-Yields, bind-Yields,
}
use mail_keep.Sql.Table.{delete_many}
use mail_keep.Users.Sessions.{
  Session, NewSession, SessionTable, has_id, find_session, insert_or_update, is_stale, store,
  delete_session, delete_found, delete_by_expiry, delete_all,
}
use mail_keep.Users.Auth.{auth_store, auth_delete, auth_delete_by_expiry, auth_delete_all}
use mail_keep.Users.SessionMap.{
  SessionMap, view, stored, unless, UniqueSession, find_stored_same, find_stored_other,
  find_deleted_same, find_deleted_other, find_unless, select-UniqueSession, stored-UniqueSession,
}

-- the methods that change the sessions, at the clock's value
pub data Command : Type 0 where
  put : ℕ → NewSession → Command
  drop : Text → Command
  drop_stale : ℕ → Command
  drop_all : Command

-- whether a method succeeded, and the state after it
abbrev pub attempt : {S A : Type 0} → Sql S A → Tx S → Bool × Tx S
attempt m s = let (r, s') = m s in (elim r [ ok _ ↦ true | err _ ↦ false ], s')

module _ (is_anonymous : Text → Bool) where
  unfoldable pub perform : Command → Tx SessionTable → Bool × Tx SessionTable
  unfolding auth_store auth_delete auth_delete_by_expiry auth_delete_all
  perform (put now new) = attempt (auth_store now new)
  perform (drop id) = attempt (auth_delete id)
  perform (drop_stale now) = attempt (auth_delete_by_expiry is_anonymous now)
  perform drop_all = attempt auth_delete_all

  -- the commands of a list that succeed, and the state after all of them
  unfoldable pub run_all : List Command → Tx SessionTable → List Command × Tx SessionTable
  unfolding perform
  run_all [] s = ([], s)
  run_all (c ∷ cs) s =
      let (done, s') = perform c s in
      let (rest, s'') = run_all cs s' in (if done then c ∷ rest else rest, s'')

  -- what a command does to the map
  unfoldable pub change : Command → SessionMap → SessionMap
  unfolding text_eq is_stale
  change (put now new) m i = if text_eq i new.id then some (stored now new (m new.id)) else m i
  change (drop id) m i = if text_eq i id then none else m i
  change (drop_stale now) m i = unless (is_stale is_anonymous now) (m i)
  change drop_all m i = none

  unfoldable pub replay : List Command → SessionMap → SessionMap
  unfolding change
  replay [] m = m
  replay (c ∷ cs) m = replay cs (change c m)

  -- `u` is what the command makes of `t`
  unfoldable pub Refines : Command → SessionTable → SessionTable → Type 0
  unfolding change
  Refines c t u = ((i : Text) → view u i ≡ change c (view t) i) × UniqueSession u

  put-Refines :
      (now : ℕ) (new : NewSession) (t : SessionTable)
      → UniqueSession t
      → Refines (put now new) t (insert_or_update now new t)
  unfolding Refines change
  put-Refines now new t u = (
    λ i. elim (Bool-cases (text_eq i new.id)) [
      | inl e ↦
          rw (text_eq_sound i new.id e) (rw (text_eq_refl new.id) (find_stored_same now new t))
      | inr e ↦ rw e (find_stored_other now new i t e)
    ],
    stored-UniqueSession now new t u,
  )

  drop-Refines :
      (id : Text) (t : SessionTable)
      → UniqueSession t
      → Refines (drop id) t (delete_many (has_id id) t)
  unfolding Refines change
  drop-Refines id t u = (
    λ i. elim (Bool-cases (text_eq i id)) [
      | inl e ↦ rw (text_eq_sound i id e) (rw (text_eq_refl id) (find_deleted_same id t))
      | inr e ↦ rw e (find_deleted_other id i t e)
    ],
    select-UniqueSession (λ s. not (has_id id s)) t u,
  )

  missing-Refines :
      (id : Text) (t : SessionTable)
      → UniqueSession t
      → find_session id t ≡ none
      → Refines (drop id) t t
  unfolding Refines change
  missing-Refines id t u absent = (
    λ i. elim (Bool-cases (text_eq i id)) [
      | inl e ↦ rw (text_eq_sound i id e) (rw (text_eq_refl id) absent)
      | inr e ↦ rw e refl
    ],
    u,
  )

  stale-Refines :
      (now : ℕ) (t : SessionTable)
      → UniqueSession t
      → Refines (drop_stale now) t (delete_many (is_stale is_anonymous now) t)
  unfolding Refines change
  stale-Refines now t u = (
    λ i. find_unless (is_stale is_anonymous now) i t u,
    select-UniqueSession (λ s. not (is_stale is_anonymous now s)) t u,
  )

  pub put-Yields :
      (now : ℕ) (new : NewSession) (t : SessionTable)
      → UniqueSession t
      → Yields (λ _ u. Refines (put now new) t u) t (store now new)
  unfolding store
  put-Yields now new t u =
      bind-Yields (λ _ v. Refines (put now new) t v) (λ _ v. Refines (put now new) t v) t _ _
        (statement-Yields (λ _ v. Refines (put now new) t v) t _ (put-Refines now new t u))
        (λ _ v h.
          bind-Yields (λ _ w. Refines (put now new) t w) (λ _ w. Refines (put now new) t w) v _ _
            (query-Yields (λ _ w. Refines (put now new) t w) v (find_session new.id) h)
            (λ o w k. ok_or-Yields (λ _ z. Refines (put now new) t z) w o _ (λ _ _. k)))

  found-Yields :
      (id : Text) (t : SessionTable) (o : Option Session)
      → UniqueSession t
      → find_session id t ≡ o
      → Yields (λ _ u. Refines (drop id) t u) t (delete_found id o)
  found-Yields id t none u e =
      pure-Yields (λ _ v. Refines (drop id) t v) t tt (missing-Refines id t u e)
  found-Yields id t (some s) u e =
      statement-Yields (λ _ v. Refines (drop id) t v) t _ (drop-Refines id t u)

  pub drop-Yields :
      (id : Text) (t : SessionTable)
      → UniqueSession t
      → Yields (λ _ u. Refines (drop id) t u) t (delete_session id)
  unfolding delete_session
  drop-Yields id t u =
      bind-Yields (λ o v. (v ≡ t) × (find_session id t ≡ o)) (λ _ v. Refines (drop id) t v) t _ _
        (query-Yields (λ o v. (v ≡ t) × (find_session id t ≡ o)) t (find_session id) (refl, refl))
        (λ o v (e, q). rw e (found-Yields id t o u q))

  pub stale-Yields :
      (now : ℕ) (t : SessionTable)
      → UniqueSession t
      → Yields (λ _ u. Refines (drop_stale now) t u) t (delete_by_expiry is_anonymous now)
  unfolding delete_by_expiry
  stale-Yields now t u =
      bind-Yields (λ _ v. v ≡ t) (λ _ v. Refines (drop_stale now) t v) t _ _
        (query-Yields (λ _ v. v ≡ t) t _ refl)
        (λ ids v e. rw e (
          bind-Yields (λ _ w. Refines (drop_stale now) t w) (λ _ w. Refines (drop_stale now) t w) t
            _ _ (statement-Yields (λ _ w. Refines (drop_stale now) t w) t _ (stale-Refines now t u))
            (λ _ w k. pure-Yields (λ _ z. Refines (drop_stale now) t z) w ids k)))

  pub all-Yields : (t : SessionTable) → Yields (λ _ u. Refines drop_all t u) t delete_all
  unfolding delete_all Refines change
  all-Yields t = statement-Yields (λ _ v. Refines drop_all t v) t _ (λ i. refl, tt)
