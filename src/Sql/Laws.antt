-- ===== src/Sql/Laws.antt =====
-- What `transaction` and `read_only_transaction` promise of any body.
use mail_keep.Base.{◌≡◌, refl, arith}
use mail_keep.Error.{Error}
use mail_keep.Sql.{Result, ok, err, Tx, Sql, finish, transaction, read_only_transaction, quiet}

module _ {S A : Type 0} where
  finish-err :
      (before : S) (r : Result A) (s : Tx S) (e : Error)
      → (finish before r s).0 ≡ err e
      → (finish before r s).1.tables ≡ before
  unfolding finish
  finish-err before (ok a) s e h = ground arith
  finish-err before (err x) s e h = refl

  -- `finish` gives the tables back after an error, and so does the whole transaction.
  pub transaction_atomic :
      (body : Sql S A) (s : Tx S) (e : Error)
      → (transaction body s).0 ≡ err e
      → (transaction body s).1.tables ≡ s.tables
  unfolding transaction
  transaction_atomic body s e h = ground (arith, finish-err s.tables (body s).0 (body s).1 e)

  pub read_only_transaction-keeps :
      (body : Sql S A) (s : Tx S) → (read_only_transaction body s).1.tables ≡ s.tables
  unfolding read_only_transaction
  read_only_transaction-keeps body s = ground arith

  -- Without faults a transaction whose body succeeds keeps what the body did.
  pub transaction-quiet :
      (body : Sql S A) (t u : S) (a : A)
      → body (quiet t) ≡ (ok a, quiet u)
      → transaction body (quiet t) ≡ (ok a, quiet u)
  unfolding transaction
  transaction-quiet body t u a h = rw h

  finish_ok :
      (before : S) (r : Result A) (s : Tx S) (a : A) → (finish before r s).0 ≡ ok a → r ≡ ok a
  unfolding finish
  finish_ok before (ok b) s a h = ground arith
  finish_ok before (err x) s a h = ground (arith, h)

  -- A transaction that succeeds returns what its body returned.
  pub transaction_ok :
      (body : Sql S A) (t : S) (a : A)
      → (transaction body (quiet t)).0 ≡ ok a
      → (body (quiet t)).0 ≡ ok a
  unfolding transaction
  transaction_ok body t a h = finish_ok t (body (quiet t)).0 (body (quiet t)).1 a h
