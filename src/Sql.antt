-- ===== src/Sql.antt =====
-- crates/core/src/repository.rs and crates/database: what one transaction does to the tables.
-- The database itself is not this repository's code: each statement, `begin` and `commit` may
-- fail, and the list `faults` says which do (`handle_dberr` has mapped the error already). An
-- exhausted list means that nothing more fails. A call that fails has done nothing: a commit whose
-- error is reported after the database carried it out is left out of the model, and a transaction
-- that is dropped, or whose rollback fails, is taken back by the database.
pub mod Table
pub mod Laws
pub mod Keeps
pub mod Order
pub mod Reads
pub mod Yields
pub mod Database
pub mod Transient
mod Tests
use mail_keep.Base.{ℕ, Option, none, some, List, [], ◌∷◌}
use mail_keep.Error.{constraint, Error, RepositoryError, repository_error}

-- `Result<A, Error>`
pub data Result {ℓ} (A : Type ℓ) : Type ℓ where
  ok : A → Result A
  err : Error → Result A

pub record Tx (S : Type 0) : Type 0 where
  pub tables : S
  pub faults : List (Option RepositoryError)

abbrev pub Sql : Type 0 → Type 0 → Type 0
Sql S A = Tx S → Result A × Tx S

module _ {S A : Type 0} where
  unfoldable pub pure : A → Sql S A
  pure a s = (ok a, s)

  unfoldable pub raise : Error → Sql S A
  raise e s = (err e, s)

  unfoldable pub lift : Result A → Sql S A
  lift r s = (r, s)

  -- whether the next call of the database fails
  abbrev pub faulty : List (Option RepositoryError) → A × S → Tx S → Result A × Tx S
  faulty [] (a, t) s = (ok a, record { tables = t; faults = [] })
  faulty (none ∷ rest) (a, t) s = (ok a, record { tables = t; faults = rest })
  faulty (some e ∷ rest) (a, t) s = (err (repository_error e), record s { faults = rest })

  -- one statement: its answer and the tables after it, or a fault and no change
  unfoldable pub statement : (S → A × S) → Sql S A
  statement f s = faulty s.faults (f s.tables) s

  -- a statement that only reads
  unfoldable pub query : (S → A) → Sql S A
  unfolding statement
  query f = statement (λ t. (f t, t))

module _ {S A B : Type 0} where
  abbrev pub continue : Result A → (A → Sql S B) → Sql S B
  continue (ok a) f s = f a s
  continue (err e) f s = (err e, s)

  infixl 10 ◌>>=◌ ◌>>◌
  abbrev pub ◌>>=◌ : Sql S A → (A → Sql S B) → Sql S B
  ◌>>=◌ m f s = let (r, s') = m s in continue r f s'

  abbrev pub ◌>>◌ : Sql S A → Sql S B → Sql S B
  m >> n = m >>= λ _. n

module _ {S A : Type 0} where
  -- `ok_or(e)?`
  unfoldable pub ok_or : Option A → Error → Sql S A
  ok_or none e s = (err e, s)
  ok_or (some a) e s = (ok a, s)

  -- the end of `transaction`: commit after `Ok`, a rollback whose own error is dropped after `Err`. A
  -- commit that fails is taken not to have been carried out.
  unfoldable pub finish : S → Result A → Sql S A
  unfolding statement
  finish before (ok a) s =
      let (r, s') = statement {A = Unit {0}} (λ t. (tt, t)) s in
      elim r [ ok _ ↦ (ok a, s') | err e ↦ (err e, record s' { tables = before }) ]
  finish before (err e) s =
      let (_, s') = statement {A = Unit {0}} (λ t. (tt, t)) s in
      (err e, record s' { tables = before })

  -- `transaction(repository, callback)`
  unfoldable pub transaction : Sql S A → Sql S A
  unfolding statement finish
  transaction body s =
      let (r, s') = statement {A = Unit {0}} (λ t. (tt, t)) s in
      elim r [
        | ok _ ↦ let (result, s'') = body s' in finish s.tables result s''
        | err e ↦ (err e, s')
      ]

  -- `read_only_transaction`: the transaction is dropped, which rolls it back
  unfoldable pub read_only_transaction : Sql S A → Sql S A
  unfolding statement
  read_only_transaction body s =
      let (r, s') = statement {A = Unit {0}} (λ t. (tt, t)) s in
      elim r [
        | ok _ ↦ let (result, s'') = body s' in (result, record s'' { tables = s.tables })
        | err e ↦ (err e, s')
      ]

  -- what follows an action: a violated constraint is answered by another action
  unfoldable pub rescue : Result A → Tx S → Sql S A → Result A × Tx S
  rescue (ok a) s n = (ok a, s)
  rescue (err (repository_error (constraint _))) s n = n s
  rescue (err e) s n = (err e, s)

  -- the arm `Err(Error::RepositoryError(RepositoryError::Constraint(_)))` of a match on an action
  unfoldable pub on_constraint : Sql S A → Sql S A → Sql S A
  unfolding rescue
  on_constraint m n s = let (r, s') = m s in rescue r s' n

-- an action on a part of the tables
unfoldable pub zoom : {S T A : Type 0} → (T → S) → (S → T → T) → Sql S A → Sql T A
zoom part whole m s =
    let (r, s') = m (record { tables = part s.tables; faults = s.faults }) in
    (r, record { tables = whole s'.tables s.tables; faults = s'.faults })

-- a transaction state in which no further call of the database fails
abbrev pub quiet : {S : Type 0} → S → Tx S
quiet t = record { tables = t; faults = [] }
