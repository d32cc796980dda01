-- ===== src/Users/Refinement.antt =====
-- The auth service of crates/core/src/auth/service.rs refines a finite map of sessions.
use mail_keep.Base.{
  Text, ℕ, ◌≡◌, refl, ap, ◌∙◌, fun_ext, Bool, true, false, Option, List, [], ◌∷◌, if◌then◌else◌,
  Option-cases, inl, inr, ◌⊎◌,
}
use mail_keep.Error.{Error}
use mail_keep.Sql.{
  Result, ok, err, Tx, Sql, quiet, transaction, finish, statement, query, ok_or, pure,
}
use mail_keep.Sql.Laws.{transaction_atomic}
use mail_keep.Sql.Table.{delete_many}
use mail_keep.Sql.Yields.{After, Yields, query-Yields, transaction-Yields}
use mail_keep.Users.Sessions.{
  Session, NewSession, SessionTable, has_id, find_session, insert_or_update, is_stale, store, load,
  delete_session, delete_by_expiry, delete_all,
}
use mail_keep.Users.Auth.{
  auth_store, auth_load, auth_delete, auth_delete_by_expiry, auth_delete_all,
}
use mail_keep.Users.SessionMap.{view, stored, UniqueSession, find_stored_same}
use mail_keep.Users.SessionRuns.{
  Command, put, drop, drop_stale, drop_all, attempt, perform, run_all, change, replay, Refines,
  put-Yields, drop-Yields, stale-Yields, all-Yields,
}

-- what a method of the service leaves: its effect if it succeeded, and else what was there
abbrev pub Left : {S : Type 0} → (S → Type 0) → S → Bool × Tx S → Type 0
Left Q before (true, s) = Q s.tables
Left Q before (false, s) = s.tables ≡ before

module _ {S A : Type 0} (Q : S → Type 0) where
  attempted :
      (before : S) (x : Result A × Tx S)
      → After (λ _ u. Q u) x
      → ((e : Error) → x.0 ≡ err e → x.1.tables ≡ before)
      → Left Q before (elim x.0 [ ok _ ↦ true | err _ ↦ false ], x.1)
  attempted before (ok a, s) h k = h
  attempted before (err e, s) h k = k e refl

  attempt-transaction :
      (m : Sql S A) (s : Tx S)
      → Yields (λ _ u. Q u) s.tables m
      → Left Q s.tables (attempt (transaction m) s)
  attempt-transaction m s h =
      attempted s.tables (transaction m s)
        ((transaction-Yields (λ _ u. Q u) s.tables m h).yields s.faults)
        (λ e q. transaction_atomic m s e q)

module _ (is_anonymous : Text → Bool) where
  perform-Left :
      (c : Command) (s : Tx SessionTable)
      → UniqueSession s.tables
      → Left (Refines is_anonymous c s.tables) s.tables (perform is_anonymous c s)
  unfolding perform auth_store auth_delete auth_delete_by_expiry auth_delete_all
  perform-Left (put now new) s u =
      attempt-transaction (Refines is_anonymous (put now new) s.tables) _ s
        (put-Yields is_anonymous now new s.tables u)
  perform-Left (drop id) s u =
      attempt-transaction (Refines is_anonymous (drop id) s.tables) _ s
        (drop-Yields is_anonymous id s.tables u)
  perform-Left (drop_stale now) s u =
      attempt-transaction (Refines is_anonymous (drop_stale now) s.tables) _ s
        (stale-Yields is_anonymous now s.tables u)
  perform-Left drop_all s u =
      attempt-transaction (Refines is_anonymous drop_all s.tables) _ s
        (all-Yields is_anonymous s.tables)

  -- the state and the commands that succeeded, against the map
  Agrees : SessionTable → List Command × Tx SessionTable → Type 0
  unfolding replay
  Agrees t x = (view x.1.tables ≡ replay is_anonymous x.0 (view t)) × UniqueSession x.1.tables

  after_command :
      (c : Command) (t : SessionTable) (x : Bool × Tx SessionTable)
      → UniqueSession t
      → Left (Refines is_anonymous c t) t x
      → (y : List Command × Tx SessionTable) → (UniqueSession x.1.tables → Agrees x.1.tables y)
      → Agrees t (if x.0 then c ∷ y.0 else y.0, y.1)
  unfolding Agrees Refines replay
  after_command c t (true, s) u (same, unique) y k =
      let (e, v) = k unique in
      let q : view s.tables ≡ change is_anonymous c (view t) = fun_ext same in
      (e ∙ ap (replay is_anonymous y.0) q, v)
  after_command c t (false, s) u e y k = let z = k (rw e u) in rw e at z

  run_all-Agrees :
      (cs : List Command) (s : Tx SessionTable)
      → UniqueSession s.tables
      → Agrees s.tables (run_all is_anonymous cs s)
  unfolding run_all Agrees replay
  run_all-Agrees [] s u = (refl, u)
  run_all-Agrees (c ∷ cs) s u =
      after_command c s.tables (perform is_anonymous c s) u (perform-Left c s u)
        (run_all is_anonymous cs (perform is_anonymous c s).1)
        (λ v. run_all-Agrees cs (perform is_anonymous c s).1 v)

  delete-quiet :
      (id : Text) (t : SessionTable)
      → (v : SessionTable) × (delete_session id (quiet t) ≡ (ok tt, quiet v))
  unfolding delete_session query statement pure
  delete-quiet id t = elim (Option-cases (find_session id t)) [
    | inl e ↦ (t, rw e refl)
    | inr (s, e) ↦ (delete_many (has_id id) t, rw e refl)
  ]

  store-quiet :
      (now : ℕ) (new : NewSession) (t : SessionTable)
      → store now new (quiet t)
        ≡ (ok (stored now new (find_session new.id t)), quiet (insert_or_update now new t))
  unfolding store query statement ok_or
  store-quiet now new t = rw (find_stored_same now new t) refl

  perform-quiet :
      (c : Command) (t : SessionTable)
      → (v : SessionTable) × (perform is_anonymous c (quiet t) ≡ (true, quiet v))
  unfolding perform auth_store auth_delete auth_delete_by_expiry auth_delete_all transaction finish
      statement delete_by_expiry delete_all query pure
  perform-quiet (put now new) t = (insert_or_update now new t, rw (store-quiet now new t) refl)
  perform-quiet (drop id) t = let (v, e) = delete-quiet id t in (v, rw e refl)
  perform-quiet (drop_stale now) t = (delete_many (is_stale is_anonymous now) t, refl)
  perform-quiet drop_all t = ([], refl)

  run_all-quiet :
      (cs : List Command) (t : SessionTable)
      → (v : SessionTable) × (run_all is_anonymous cs (quiet t) ≡ (cs, quiet v))
  unfolding run_all
  run_all-quiet [] t = (t, refl)
  run_all-quiet (c ∷ cs) t =
      let (v, e) = perform-quiet c t in
      let (w, q) = run_all-quiet cs v in (w, rw (run_all, e, q) refl)

  load-Yields : (i : Text) (t : SessionTable) → Yields (λ o _. o ≡ find_session i t) t (load i)
  unfolding load
  load-Yields i t = query-Yields (λ o _. o ≡ find_session i t) t (find_session i) refl

  load-quiet : (i : Text) (t : SessionTable) → (auth_load i (quiet t)).0 ≡ ok (find_session i t)
  unfolding auth_load load transaction finish statement query
  load-quiet i t = refl

  answer_or_error :
      (m : Option Session) (x : Result (Option Session) × Tx SessionTable)
      → After (λ o _. o ≡ m) x
      → (x.0 ≡ ok m) ⊎ ((e : Error) × (x.0 ≡ err e))
  answer_or_error m (ok o, s) h = inl (ap (λ z. ok z) h)
  answer_or_error m (err e, s) h = inr (e, refl)

  load-answers :
      (i : Text) (s : Tx SessionTable)
      → ((auth_load i s).0 ≡ ok (view s.tables i)) ⊎ ((e : Error) × ((auth_load i s).0 ≡ err e))
  unfolding auth_load
  load-answers i s = answer_or_error (view s.tables i) (auth_load i s) (
      (transaction-Yields (λ o _. o ≡ find_session i s.tables) s.tables (load i)
          (load-Yields i s.tables)).yields
        s.faults)

  -- After any run of `store`, `delete_by_id`, `delete_by_expiry` and `delete_all`, whatever fails,
  -- `load` either fails or answers what a map from ids to sessions holds after the commands that
  -- succeeded. Where the database does not fail, all of them succeed and `load` answers. The ids of
  -- the table are unique at the start.
  pub sessions_refine_map :
      (cs : List Command) (s : Tx SessionTable) (i : Text)
      → UniqueSession s.tables
      → let (done, after) = run_all is_anonymous cs s in
        let (all_done, calm) = run_all is_anonymous cs (quiet s.tables) in
        (((auth_load i after).0 ≡ ok (replay is_anonymous done (view s.tables) i))
          ⊎ ((e : Error) × ((auth_load i after).0 ≡ err e)))
        × (all_done ≡ cs)
        × ((auth_load i calm).0 ≡ ok (replay is_anonymous cs (view s.tables) i))
  unfolding Agrees
  sessions_refine_map cs s i u =
      let (e, _) = run_all-Agrees cs s u in
      let (same, _) = run_all-Agrees cs (quiet s.tables) u in
      let (v, q) = run_all-quiet cs s.tables in
      let held : view v ≡ replay is_anonymous cs (view s.tables) = rw q at same in
      (
        elim (load-answers i (run_all is_anonymous cs s).1) [
          | inl h ↦ inl (h ∙ ap (λ m. ok (m i)) e)
          | inr f ↦ inr f
        ],
        rw q refl,
        rw q (load-quiet i v ∙ ap (λ m. ok (m i)) held),
      )
