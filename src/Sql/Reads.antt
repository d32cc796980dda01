-- ===== src/Sql/Reads.antt =====
-- Actions that change nothing, and what their answer says of the tables, whatever fails.
use mail_keep.Base.{
  ◌≡◌, refl, sym, ap, ◌∙◌, Bool, true, false, if◌then◌else◌, Option, none, some, List, [], ◌∷◌,
  arith,
}
use mail_keep.Error.{Error, RepositoryError}
use mail_keep.Sql.{
  Result, ok, err, Tx, Sql, pure, raise, lift, statement, query, ◌>>=◌, continue, faulty, zoom,
  read_only_transaction,
}

module _ {S A : Type 0} (t : S) (P : A → Type 0) where
  -- the tables are `t` still, and `P` holds of an answer
  abbrev pub Says : Result A × Tx S → Type 0
  Says (ok a, s) = (s.tables ≡ t) × P a
  Says (err e, s) = s.tables ≡ t

  pub record Reads (m : Sql S A) : Type 0 where
    pub reads : (l : List (Option RepositoryError)) → Says (m (record { tables = t; faults = l }))

  pub pure-Reads : (a : A) → P a → Reads (pure a)
  unfolding pure
  pure-Reads a p = record { reads = λ l. (refl, p) }

  pub raise-Reads : (e : Error) → Reads (raise e)
  unfolding raise
  raise-Reads e = record { reads = λ l. refl }

  lift-Says :
      (r : Result A) (l : List (Option RepositoryError))
      → ((a : A) → r ≡ ok a → P a)
      → Says (r, record { tables = t; faults = l })
  lift-Says (ok a) l k = (refl, k a refl)
  lift-Says (err e) l k = refl

  pub lift-Reads : (r : Result A) → ((a : A) → r ≡ ok a → P a) → Reads (lift r)
  unfolding lift
  lift-Reads r k = record { reads = λ l. lift-Says r l k }

  query-Says :
      (l : List (Option RepositoryError)) (a : A)
      → P a
      → Says (faulty l (a, t) (record { tables = t; faults = l }))
  query-Says [] a p = (refl, p)
  query-Says (none ∷ l) a p = (refl, p)
  query-Says (some e ∷ l) a p = refl

  pub query-Reads : (f : S → A) → P (f t) → Reads (query f)
  unfolding query statement
  query-Reads f p = record { reads = λ l. query-Says l (f t) p }

  pub if-Reads : (b : Bool) (m n : Sql S A) → Reads m → Reads n → Reads (if b then m else n)
  if-Reads true m n h k = h
  if-Reads false m n h k = k

  dropped-Says : (x : Result A × Tx S) → Says x → Says (x.0, record x.1 { tables = t })
  dropped-Says (ok a, s) h = (refl, h.1)
  dropped-Says (err e, s) h = refl

  transaction-Says :
      (m : Sql S A) (l : List (Option RepositoryError))
      → Reads m
      → Says (read_only_transaction m (record { tables = t; faults = l }))
  unfolding read_only_transaction statement
  transaction-Says m [] h = dropped-Says (m (record { tables = t; faults = [] })) (h.reads [])
  transaction-Says m (none ∷ l) h = dropped-Says (m (record { tables = t; faults = l })) (h.reads l)
  transaction-Says m (some e ∷ l) h = refl

  pub read_only_transaction-Reads : (m : Sql S A) → Reads m → Reads (read_only_transaction m)
  read_only_transaction-Reads m h = record { reads = λ l. transaction-Says m l h }

  ok_answer : (b a : A) → ok b ≡ ok a → P b → P a
  ok_answer b a e p = let q : b ≡ a = ground (arith, e) in rw (sym q) p

  Says-answer : (x : Result A × Tx S) (a : A) → Says x → x.0 ≡ ok a → P a
  Says-answer (ok b, s) a h e = ok_answer b a e h.1
  Says-answer (err z, s) a h e = ground (arith, e)

  pub answer_of :
      (m : Sql S A) (l : List (Option RepositoryError)) (a : A)
      → Reads m
      → (m (record { tables = t; faults = l })).0 ≡ ok a
      → P a
  answer_of m l a h e = Says-answer (m (record { tables = t; faults = l })) a (h.reads l) e

module _ {S A B : Type 0} (t : S) (Q : A → Type 0) (P : B → Type 0) where
  at_tables : (m : Sql S B) (s : Tx S) → s.tables ≡ t → Reads t P m → Says t P (m s)
  at_tables m s e h =
      let q : s ≡ record { tables = t; faults = s.faults } =
        ap (λ x. record { tables = x; faults = s.faults }) e in
      rw q (h.reads s.faults)

  continue-Says :
      (x : Result A × Tx S) (f : A → Sql S B)
      → Says t Q x
      → ((a : A) → Q a → Reads t P (f a))
      → Says t P (continue x.0 f x.1)
  continue-Says (ok a, s) f (e, q) k = at_tables (f a) s e (k a q)
  continue-Says (err z, s) f e k = e

  pub bind-Reads :
      (m : Sql S A) (f : A → Sql S B)
      → Reads t Q m
      → ((a : A) → Q a → Reads t P (f a))
      → Reads t P (m >>= f)
  bind-Reads m f h k = record {
    reads = λ l. continue-Says (m (record { tables = t; faults = l })) f (h.reads l) k;
  }

module _ {S T A : Type 0} (t : T) (part : T → S) (whole : S → T → T) (P : A → Type 0) where
  zoomed-Says :
      (x : Result A × Tx S)
      → whole (part t) t ≡ t
      → Says (part t) P x
      → Says t P (x.0, record { tables = whole x.1.tables t; faults = x.1.faults })
  zoomed-Says (ok a, s) lens (e, p) = (ap (λ u. whole u t) e ∙ lens, p)
  zoomed-Says (err z, s) lens e = ap (λ u. whole u t) e ∙ lens

  pub zoom-Reads :
      (m : Sql S A) → whole (part t) t ≡ t → Reads (part t) P m → Reads t P (zoom part whole m)
  unfolding zoom
  zoom-Reads m lens h = record {
    reads = λ l. zoomed-Says (m (record { tables = part t; faults = l })) lens (h.reads l);
  }
