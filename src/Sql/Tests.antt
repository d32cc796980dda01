-- ===== src/Sql/Tests.antt =====
-- Errors of the database at concrete inputs.
use mail_keep.Base.{codes, text_eq, ◌≡◌, refl, true, Option, none, some}
use mail_keep.Error.{repository_error, is_transient}
use mail_keep.Sql.Database.{DbErr, query, reported, SqlErr, handle_dberr}

abbrev locked : DbErr
locked = query (reported (record { code = some (codes "5"); message = "database is locked" }))

abbrev no_sql_err : DbErr → Option SqlErr
no_sql_err e = none

retried : is_transient (repository_error (handle_dberr no_sql_err locked)) ≡ true
unfolding handle_dberr is_transient text_eq
retried = refl
