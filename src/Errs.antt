-- ===== src/Errs.antt =====
-- internal/errs/errs.go, and what the program uses of Go's `errors`: an `error` that is not nil is
-- a `GoError`, and one that may be nil an `Option GoError`.
pub mod Laws
use Prim.Native.String.{◌++◌}
use geo_notifications_servic.Prelude.{
  String, Bool, true, false, Option, none, some, List, [], str_eq, if◌then◌else◌,
}

-- `Kind` is a string type in the source; these are the constants that it declares.
pub data Kind : Type 0 where
  invalid not_found unauthorized forbidden conflict internal : Kind

unfoldable pub kind_name : Kind → String
kind_name invalid = "invalid"
kind_name not_found = "not_found"
kind_name unauthorized = "unauthorized"
kind_name forbidden = "forbidden"
kind_name conflict = "conflict"
kind_name internal = "internal"

-- A `map[string]string`; a nil map and an empty one are both the empty list.
abbrev pub Fields : Type 0
Fields = List (String × String)

mutual
  pub data GoError : Type 0 where
    -- *errs.Error
    app : Kind → (code op msg : String) → Fields → Cause → GoError
    -- errors.New, and the errors of libraries that the program looks at only as text
    plain : String → GoError
    -- fmt.Errorf("prefix: %w", err)
    prefixed : String → GoError → GoError
    -- sql.ErrNoRows
    no_rows : GoError
    -- *pgconn.PgError, with its SQLSTATE and its text
    pg_error : (sqlstate text : String) → GoError

  -- The field `Err`, which may be nil.
  pub data Cause : Type 0 where
    no_cause : Cause
    caused_by : GoError → Cause

-- The struct `Error`.
pub record Error : Type 0 where
  pub kind : Kind
  pub code : String
  pub op : String
  pub msg : String
  pub fields : Fields
  pub err : Cause

-- The constructor function `E`.
abbrev pub new_error : Kind → String → String → String → Fields → Cause → GoError
new_error kind code op msg fields err = app kind code op msg fields err

-- The text that a message falls back to: the cause's, then the kind's.
base_text : String → Kind → String → String
base_text msg kind cause =
    let base = if str_eq msg "" then cause else msg in
    if str_eq base "" then kind_name kind else base

with_op : String → String → String
with_op op base = if str_eq op "" then base else op ++ ": " ++ base

unfoldable mutual
  unfolding base_text with_op

  -- The method `Error` of an error.
  pub error_text : GoError → String
  error_text (app kind code op msg fields cause) =
      with_op op (base_text msg kind (cause_text cause))
  error_text (plain text) = text
  error_text (prefixed prefix e) = prefix ++ ": " ++ error_text e
  error_text no_rows = "sql: no rows in result set"
  error_text (pg_error sqlstate text) = text

  pub cause_text : Cause → String
  cause_text no_cause = ""
  cause_text (caused_by e) = error_text e

unfoldable mutual
  -- `As`: the first *errs.Error of the chain that `errors.As` walks.
  pub as_error : GoError → Option Error
  as_error (app kind code op msg fields cause) =
      some (record { kind = kind; code = code; op = op; msg = msg; fields = fields; err = cause })
  as_error (prefixed prefix e) = as_error e
  as_error _ = none

unfoldable mutual
  -- errors.Is(err, sql.ErrNoRows)
  pub is_no_rows : GoError → Bool
  is_no_rows no_rows = true
  is_no_rows (app kind code op msg fields cause) = cause_is_no_rows cause
  is_no_rows (prefixed prefix e) = is_no_rows e
  is_no_rows _ = false

  pub cause_is_no_rows : Cause → Bool
  cause_is_no_rows no_cause = false
  cause_is_no_rows (caused_by e) = is_no_rows e

unfoldable mutual
  -- errors.As(err, &pgErr): the SQLSTATE of the first *pgconn.PgError of the chain.
  pub as_pg_error : GoError → Option String
  as_pg_error (pg_error sqlstate text) = some sqlstate
  as_pg_error (app kind code op msg fields cause) = cause_as_pg_error cause
  as_pg_error (prefixed prefix e) = as_pg_error e
  as_pg_error _ = none

  pub cause_as_pg_error : Cause → Option String
  cause_as_pg_error no_cause = none
  cause_as_pg_error (caused_by e) = as_pg_error e

-- `Wrap` of an error that is not nil.
unfoldable pub wrap_error : String → GoError → GoError
unfolding as_error
wrap_error op err = elim (as_error err) [
  | some e ↦ app e.kind e.code op e.msg e.fields (caused_by err)
  | none ↦ app internal "INTERNAL" op "internal error" [] (caused_by err)
]

unfoldable pub wrap : String → Option GoError → Option GoError
unfolding wrap_error
wrap op none = none
wrap op (some err) = some (wrap_error op err)
