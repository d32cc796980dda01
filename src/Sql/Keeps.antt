-- ===== src/Sql/Keeps.antt =====
-- Invariants of the tables: actions that keep them, whatever fails.
use mail_keep.Base.{Bool, true, false, if◌then◌else◌, Option, none, some, List, [], ◌∷◌}
use mail_keep.Error.{Error, RepositoryError, constraint, repository_error}
use mail_keep.Sql.{
  lift, finish, transaction, zoom, Result, ok, err, Tx, Sql, pure, raise, statement, query, ok_or,
  ◌>>=◌, continue, faulty, on_constraint, rescue,
}

-- After the action the tables satisfy `I` if they did before.
pub record Keeps {S A : Type 0} (I : S → Type 0) (m : Sql S A) : Type 0 where
  pub keeps : (s : Tx S) → I s.tables → I (m s).1.tables

module _ {S A : Type 0} (I : S → Type 0) where
  pub pure-Keeps : (a : A) → Keeps I (pure {S = S} a)
  unfolding pure
  pure-Keeps a = record { keeps = λ s h. h }

  pub raise-Keeps : (e : Error) → Keeps I (raise {S = S} {A = A} e)
  unfolding raise
  raise-Keeps e = record { keeps = λ s h. h }

  faulty_keeps :
      (l : List (Option RepositoryError)) (a : A) (t : S) (s : Tx S)
      → I s.tables
      → I t
      → I (faulty l (a, t) s).1.tables
  faulty_keeps [] a t s h k = k
  faulty_keeps (none ∷ l) a t s h k = k
  faulty_keeps (some e ∷ l) a t s h k = h

  pub statement-Keeps : (f : S → A × S) → ((t : S) → I t → I (f t).1) → Keeps I (statement f)
  unfolding statement
  statement-Keeps f k = record {
    keeps = λ s h. faulty_keeps s.faults (f s.tables).0 (f s.tables).1 s h (k s.tables h);
  }

  pub query-Keeps : (f : S → A) → Keeps I (query f)
  unfolding query
  query-Keeps f = statement-Keeps (λ t. (f t, t)) (λ t h. h)

  pub ok_or-Keeps : (o : Option A) (e : Error) → Keeps I (ok_or {S = S} o e)
  unfolding ok_or
  ok_or-Keeps none e = record { keeps = λ s h. h }
  ok_or-Keeps (some a) e = record { keeps = λ s h. h }

  pub lift-Keeps : (r : Result A) → Keeps I (lift {S = S} r)
  unfolding lift
  lift-Keeps r = record { keeps = λ s h. h }

  pub if-Keeps : (b : Bool) (m n : Sql S A) → Keeps I m → Keeps I n → Keeps I (if b then m else n)
  if-Keeps true m n h k = h
  if-Keeps false m n h k = k

  rescue_keeps :
      (r : Result A) (s : Tx S) (n : Sql S A) → I s.tables → Keeps I n → I (rescue r s n).1.tables
  unfolding rescue
  rescue_keeps (ok a) s n h k = h
  rescue_keeps (err (repository_error (constraint _))) s n h k = k.keeps s h
  rescue_keeps (err _) s n h k = h

  pub on_constraint-Keeps : (m n : Sql S A) → Keeps I m → Keeps I n → Keeps I (on_constraint m n)
  unfolding on_constraint
  on_constraint-Keeps m n h k = record {
    keeps = λ s i. rescue_keeps (m s).0 (m s).1 n (h.keeps s i) k;
  }

module _ {S A B : Type 0} (I : S → Type 0) where
  continue_keeps :
      (r : Result A) (s : Tx S) (f : A → Sql S B)
      → I s.tables
      → ((a : A) → Keeps I (f a))
      → I (continue r f s).1.tables
  continue_keeps (ok a) s f h k = (k a).keeps s h
  continue_keeps (err e) s f h k = h

  pub bind-Keeps :
      (m : Sql S A) (f : A → Sql S B) → Keeps I m → ((a : A) → Keeps I (f a)) → Keeps I (m >>= f)
  bind-Keeps m f h k = record { keeps = λ s i. continue_keeps (m s).0 (m s).1 f (h.keeps s i) k }

module _ {S A : Type 0} (I : S → Type 0) where
  commit_keeps :
      (before t : S) (a : A) (l : List (Option RepositoryError))
      → I before
      → I t
      → I (finish before (ok a) (record { tables = t; faults = l })).1.tables
  unfolding finish statement
  commit_keeps before t a [] h k = k
  commit_keeps before t a (none ∷ l) h k = k
  commit_keeps before t a (some e ∷ l) h k = h

  finish_keeps :
      (before : S) (r : Result A) (s : Tx S)
      → I before
      → I s.tables
      → I (finish before r s).1.tables
  unfolding finish
  finish_keeps before (ok a) s h k = commit_keeps before s.tables a s.faults h k
  finish_keeps before (err e) s h k = h

  transaction_keeps :
      (m : Sql S A) (t : S) (l : List (Option RepositoryError))
      → Keeps I m
      → I t
      → I (transaction m (record { tables = t; faults = l })).1.tables
  unfolding transaction statement
  transaction_keeps m t [] k h =
      let s : Tx S = record { tables = t; faults = [] } in
      finish_keeps t (m s).0 (m s).1 h (k.keeps s h)
  transaction_keeps m t (none ∷ l) k h =
      let s : Tx S = record { tables = t; faults = l } in
      finish_keeps t (m s).0 (m s).1 h (k.keeps s h)
  transaction_keeps m t (some e ∷ l) k h = h

  pub transaction-Keeps : (m : Sql S A) → Keeps I m → Keeps I (transaction m)
  transaction-Keeps m k = record { keeps = λ s h. transaction_keeps m s.tables s.faults k h }

module _ {S T A : Type 0} (I : T → Type 0) where
  -- An action on a part of the tables of which the invariant does not speak.
  pub zoom-Keeps :
      (part : T → S) (whole : S → T → T) (m : Sql S A)
      → ((s : S) (t : T) → I t → I (whole s t))
      → Keeps I (zoom part whole m)
  unfolding zoom
  zoom-Keeps part whole m k = record {
    keeps = λ s h. k (m (record { tables = part s.tables; faults = s.faults })).1.tables s.tables h;
  }
