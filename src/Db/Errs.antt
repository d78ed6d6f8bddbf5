-- ===== src/Db/Errs.antt =====
-- internal/platform/db/errs/errs.go.
use geo_notifications_servic.Prelude.{String, none, some, [], str_eq, if◌then◌else◌}
use geo_notifications_servic.Errs.{
  invalid, not_found, conflict, internal, GoError, caused_by, new_error, is_no_rows, as_pg_error,
}

-- The codes of pgerrcode.
pg_case : String → String → GoError → GoError
pg_case sqlstate op e =
    if str_eq sqlstate "23505"
    then new_error conflict "UNIQUE_VIOLATION" op "" [] (caused_by e)
    else if str_eq sqlstate "23503"
    then new_error conflict "FK_VIOLATION" op "" [] (caused_by e)
    else if str_eq sqlstate "23514"
    then new_error invalid "CHECK_VIOLATION" op "invalid input" [] (caused_by e)
    else if str_eq sqlstate "22P02"
    then new_error invalid "INVALID_INPUT" op "invalid input" [] (caused_by e)
    else if str_eq sqlstate "22001"
    then new_error invalid "VALUE_TOO_LONG" op "value too long" [] (caused_by e)
    else new_error internal "DB_ERROR" op "database error" [] (caused_by e)

-- `Map` of an error that is not nil.
unfoldable pub db_error : String → GoError → GoError
unfolding pg_case is_no_rows as_pg_error
db_error op e =
    if is_no_rows e
    then new_error not_found "NOT_FOUND" op "" [] (caused_by e)
    else elim (as_pg_error e) [
      | some sqlstate ↦ pg_case sqlstate op e
      | none ↦ new_error internal "INTERNAL" op "internal error" [] (caused_by e)
    ]
