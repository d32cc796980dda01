-- ===== src/Sql/Yields.antt =====
-- What an action that succeeds has done, whatever fails: its answer and the tables after it.
use mail_keep.Base.{◌≡◌, refl, sym, Option, none, some, List, [], ◌∷◌, arith}
use mail_keep.Error.{Error, RepositoryError}
use mail_keep.Sql.{
  Result, ok, err, Tx, Sql, pure, raise, statement, query, ok_or, ◌>>=◌, continue, faulty, finish,
  transaction,
}

module _ {S A : Type 0} (P : A → S → Type 0) where
  -- `P` relates an answer to the tables after it.
  abbrev pub After : Result A × Tx S → Type 0
  After (ok a, s) = P a s.tables
  After (err e, s) = Unit {0}

  -- From the tables `t`, whatever fails, `P` holds after an answer.
  pub record Yields (t : S) (m : Sql S A) : Type 0 where
    pub yields : (l : List (Option RepositoryError)) → After (m (record { tables = t; faults = l }))

  pub pure-Yields : (t : S) (a : A) → P a t → Yields t (pure a)
  unfolding pure
  pure-Yields t a p = record { yields = λ l. p }

  pub raise-Yields : (t : S) (e : Error) → Yields t (raise e)
  unfolding raise
  raise-Yields t e = record { yields = λ l. _ }

  faulty-After :
      (l : List (Option RepositoryError)) (a : A) (u : S) (s : Tx S)
      → P a u
      → After (faulty l (a, u) s)
  faulty-After [] a u s p = p
  faulty-After (none ∷ l) a u s p = p
  faulty-After (some e ∷ l) a u s p = _

  pub statement-Yields : (t : S) (f : S → A × S) → P (f t).0 (f t).1 → Yields t (statement f)
  unfolding statement
  statement-Yields t f p = record {
    yields = λ l. faulty-After l (f t).0 (f t).1 (record { tables = t; faults = l }) p;
  }

  pub query-Yields : (t : S) (f : S → A) → P (f t) t → Yields t (query f)
  unfolding query
  query-Yields t f p = statement-Yields t (λ u. (f u, u)) p

  ok_or-After :
      (t : S) (o : Option A) (e : Error) (l : List (Option RepositoryError))
      → ((a : A) → o ≡ some a → P a t)
      → After (ok_or o e (record { tables = t; faults = l }))
  unfolding ok_or
  ok_or-After t none e l k = _
  ok_or-After t (some a) e l k = k a refl

  pub ok_or-Yields :
      (t : S) (o : Option A) (e : Error) → ((a : A) → o ≡ some a → P a t) → Yields t (ok_or o e)
  ok_or-Yields t o e k = record { yields = λ l. ok_or-After t o e l k }

  commit-After :
      (before u : S) (a : A) (l : List (Option RepositoryError))
      → P a u
      → After (finish before (ok a) (record { tables = u; faults = l }))
  unfolding finish statement
  commit-After before u a [] p = p
  commit-After before u a (none ∷ l) p = p
  commit-After before u a (some e ∷ l) p = _

  finish-After : (before : S) (x : Result A × Tx S) → After x → After (finish before x.0 x.1)
  unfolding finish
  finish-After before (ok a, s) h = commit-After before s.tables a s.faults h
  finish-After before (err e, s) h = _

  transaction-After :
      (t : S) (m : Sql S A) (l : List (Option RepositoryError))
      → Yields t m
      → After (transaction m (record { tables = t; faults = l }))
  unfolding transaction statement
  transaction-After t m [] h = finish-After t (m (record { tables = t; faults = [] })) (h.yields [])
  transaction-After t m (none ∷ l) h =
      finish-After t (m (record { tables = t; faults = l })) (h.yields l)
  transaction-After t m (some e ∷ l) h = _

  pub transaction-Yields : (t : S) (m : Sql S A) → Yields t m → Yields t (transaction m)
  transaction-Yields t m h = record { yields = λ l. transaction-After t m l h }

  After-answer : (x : Result A × Tx S) (a : A) → After x → x.0 ≡ ok a → P a x.1.tables
  After-answer (ok b, s) a h e = let q : b ≡ a = ground (arith, e) in rw (sym q) h
  After-answer (err z, s) a h e = ground (arith, e)

  -- After an action that answered, `P` holds of the answer and the tables.
  pub after_answer :
      (m : Sql S A) (s : Tx S) (a : A) → Yields s.tables m → (m s).0 ≡ ok a → P a (m s).1.tables
  after_answer m s a h e = After-answer (m s) a (h.yields s.faults) e

module _ {S A B : Type 0} (Q : A → S → Type 0) (P : B → S → Type 0) where
  continue-After :
      (x : Result A × Tx S) (f : A → Sql S B)
      → After Q x
      → ((a : A) (u : S) → Q a u → Yields P u (f a))
      → After P (continue x.0 f x.1)
  continue-After (ok a, s) f q k = (k a s.tables q).yields s.faults
  continue-After (err z, s) f q k = _

  pub bind-Yields :
      (t : S) (m : Sql S A) (f : A → Sql S B)
      → Yields Q t m
      → ((a : A) (u : S) → Q a u → Yields P u (f a))
      → Yields P t (m >>= f)
  bind-Yields t m f h k = record {
    yields = λ l. continue-After (m (record { tables = t; faults = l })) f (h.yields l) k;
  }
