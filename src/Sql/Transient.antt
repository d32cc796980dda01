-- ===== src/Sql/Transient.antt =====
-- Laws of crates/database/src/error.rs: which errors of the database are worth another try.
use mail_keep.Base.{
  Text, codes, text_eq, ◌≡◌, Bool, true, false, ◌||◌, Option, none, some, List, [], ◌∷◌, In,
}
use mail_keep.Sql.Database.{
  DatabaseError, io, pool_timed_out, pool_closed, reported, DbErr, conn, query, exec,
  connection_acquire, SqlErr,
}

-- The codes SQLITE_BUSY and SQLITE_LOCKED, the only ones that the code tests: an extended code such
-- as the one of a snapshot that is busy is not among them.
abbrev pub is_locked : Option Text → Bool
is_locked none = false
is_locked (some code) = text_eq code (codes "5") || text_eq code (codes "6")

abbrev pub is_absent : Option SqlErr → Bool
is_absent none = true
is_absent (some s) = false

-- the errors of a database that cannot be reached
abbrev pub unreachable : List DbErr
unreachable = conn io ∷ conn pool_timed_out ∷ conn pool_closed ∷ connection_acquire ∷ []

-- a query or a statement that the database refused, since another connection has locked it
abbrev pub IsLockedOut : DbErr → Type 0
IsLockedOut e =
    (d : DatabaseError) × (c : Text) × In e (query (reported d) ∷ exec (reported d) ∷ [])
    × (d.code ≡ some c)
    × In c (codes "5" ∷ codes "6" ∷ [])
