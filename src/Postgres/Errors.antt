-- ===== src/Postgres/Errors.antt =====
-- errors.go: which errors of Postgres are worth another try.
use oafse.Common.{String, Bool, true, ◌||◌, Option, none, some, str_eq, if◌then◌else◌}
use oafse.Common.Go.{GoResult, ok, err, Error, transient, fatal}

-- What `errors.AsType`, `errors.Is` and `pgconn.SafeToRetry` say of an error.
pub record DbError : Type 0 where
  pub pg_code : Option String
  pub safe_to_retry : Bool
  pub is_net_error : Bool
  pub is_deadline_exceeded : Bool
  pub is_canceled : Bool
  pub is_eof : Bool
  pub is_unexpected_eof : Bool

unfoldable pub is_transient_code : String → Bool
is_transient_code code =
    str_eq code "40001" || str_eq code "40P01" || str_eq code "53300" || str_eq code "57P03"

abbrev transient_by : Option String → DbError → Bool
transient_by (some code) e = is_transient_code code
transient_by none e =
    if e.safe_to_retry
    then true
    else if e.is_net_error
    then true
    else e.is_deadline_exceeded || e.is_canceled || e.is_eof || e.is_unexpected_eof

unfoldable pub is_transient_err : DbError → Bool
unfolding is_transient_code
is_transient_err e = transient_by e.pg_code e

unfoldable pub wrap_db_err : DbError → Error
unfolding is_transient_err
wrap_db_err e = if is_transient_err e then transient else fatal

-- One statement: run and answered, not run, or run with its answer lost.
pub data DbLink : Type 0 where
  db_up : DbLink
  not_run : DbError → DbLink
  answer_lost : DbError → DbLink

abbrev pub db_call : {S A : Type 0} → DbLink → (S → A × S) → S → GoResult A × S
db_call db_up m s = let (a, s') = m s in (ok a, s')
db_call (not_run e) m s = (err (wrap_db_err e), s)
db_call (answer_lost e) m s = let (a, s') = m s in (err (wrap_db_err e), s')
