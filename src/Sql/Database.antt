-- ===== src/Sql/Database.antt =====
-- crates/database/src/error.rs: what an error of the database means to the services. The errors of
-- SeaORM and sqlx are told apart as far as `handle_dberr` does it; `sql_err`, which SeaORM makes of
-- an error, is a parameter. A formatted message keeps its fixed text only.
use mail_keep.Base.{
  Text, codes, text_eq, String, Bool, true, false, ◌||◌, Option, none, some, if◌then◌else◌,
}
use mail_keep.Error.{
  RepositoryError, constraint, read_only, database, query_canceled, connection, busy,
}

-- what a database reports: its code and its message
pub record DatabaseError : Type 0 where
  pub code : Option Text
  pub message : String

-- `sqlx::Error`
pub data SqlxError : Type 0 where
  io pool_timed_out pool_closed other : SqlxError
  reported : DatabaseError → SqlxError

-- `DbErr`, where `other` is any that `handle_dberr` does not look into
pub data DbErr : Type 0 where
  conn query exec : SqlxError → DbErr
  connection_acquire other : DbErr

-- `SqlErr`
pub data SqlErr : Type 0 where
  unique_violation foreign_key_violation : String → SqlErr
  other : SqlErr

-- The database cannot be reached.
unfoldable pub is_unreachable : DbErr → Bool
is_unreachable (conn io) = true
is_unreachable (conn pool_timed_out) = true
is_unreachable (conn pool_closed) = true
is_unreachable connection_acquire = true
is_unreachable _ = false

-- the match on `sql_err`
unfoldable pub of_sql_err : SqlErr → RepositoryError
of_sql_err (unique_violation message) = constraint message
of_sql_err (foreign_key_violation message) = constraint "Foreign key violation"
of_sql_err SqlErr.other = database "unhandled sql_err"

-- the match on a code
unfoldable pub of_code : Text → String → RepositoryError
of_code code message =
    if text_eq code (codes "25006")
    then read_only
    else if text_eq code (codes "23505")
    then constraint message
    else if text_eq code (codes "23503")
    then constraint "Foreign key violation"
    else if text_eq code (codes "40001")
    then RepositoryError.conflict
    else if text_eq code (codes "57014")
    then query_canceled
    else if text_eq code (codes "5") || text_eq code (codes "6")
    then busy "database locked"
    else database "unhandled code"

-- the error of the database in a query or a statement
unfoldable pub as_database_error : DbErr → Option DatabaseError
as_database_error (query (reported d)) = some d
as_database_error (exec (reported d)) = some d
as_database_error _ = none

abbrev pub code_of : Option DatabaseError → Option Text
code_of none = none
code_of (some d) = d.code

abbrev pub text_of : Option DatabaseError → String
text_of none = ""
text_of (some d) = d.message

-- the fallback to the code
unfoldable pub by_code : Option Text → String → RepositoryError
unfolding of_code
by_code none message = database "unhandled"
by_code (some code) message = of_code code message

-- `handle_dberr`
unfoldable pub handle_dberr : (DbErr → Option SqlErr) → DbErr → RepositoryError
unfolding is_unreachable of_sql_err as_database_error by_code
handle_dberr sql_err e =
    if is_unreachable e then connection "database unreachable" else elim (sql_err e) [
      | some s ↦ of_sql_err s
      | none ↦ by_code (code_of (as_database_error e)) (text_of (as_database_error e))
    ]
