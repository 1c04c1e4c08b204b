-- ===== src/Journal/Reads.antt =====
-- python/fala/read.py: `list_runs`, `get_run` and `list_processes`. A journal is what its tables hold
-- in the order of the ids; opening it may raise.
use fala.Prelude.{
  ℕ, zero, suc, String, not, ◌||◌, Option, none, some, List, [], ◌∷◌, length, ltb, if◌then◌else◌,
}
use fala.Prelude.Int.{pos}
use fala.Python.Outcome.{Outcome, ok, raise, raise_if, Error, builtin, value_error, ◌>>=◌, ◌>>◌}
use fala.Python.Value.{Value, Fields, str}
use fala.Python.Text.{truthy}
use fala.Python.Json.{Platform}
use fala.Inspection.Rows.{Cell, is_text}
use fala.Inspection.Leases.{Limit, rows, is_six}
use fala.Journal.Records.{Record, run_columns, process_columns, read_error, read_record}

pub record Journal : Type 0 where
  pub user_version : Option Cell
  pub migration : Option Cell
  pub runs : List Record
  pub processes : List Record

-- What `_path` and `_open` do before the version is checked.
pub data Opening : Type 0 where
  refused : Error → Opening
  opened : Journal → Opening

abbrev bad_limit : Error
bad_limit = builtin value_error "fala read: max_rows must be an integer from 1 through 100000"

-- `_limit`
unfoldable pub read_limit : Limit → Outcome ℕ
read_limit (rows (pos n)) = if ltb n 1 || ltb 100000 n then raise bad_limit else ok n
read_limit _ = raise bad_limit

-- `_open`, up to its `yield`
unfoldable pub open_journal : Opening → Outcome Journal
open_journal (refused e) = raise e
open_journal (opened j) = do
  raise_if (not (is_six j.user_version) || not (is_six j.migration))
      (read_error "schema v6 is required")
  ok j

-- `LIMIT n`
unfoldable pub take : ℕ → List Record → List Record
take zero rs = []
take (suc n) [] = []
take (suc n) (r ∷ rs) = r ∷ take n rs

-- `WHERE column=?`
unfoldable pub where_equals : String → String → List Record → List Record
where_equals column s [] = []
where_equals column s (r ∷ rs) =
    let rest = where_equals column s rs in if is_text s (r column) then r ∷ rest else rest

module _ ⦃platform : Platform⦄ where
  -- `[_row(row, columns) for row in rows]`
  unfoldable pub read_all : List String → List Record → Outcome (List Fields)
  read_all columns [] = ok []
  read_all columns (r ∷ rs) = do
    fs ← read_record columns r
    rest ← read_all columns rs
    ok (fs ∷ rest)

  -- the rest of a listing, from its query on
  unfoldable pub read_bounded : List String → ℕ → Error → List Record → Outcome (List Fields)
  read_bounded columns limit exceeded table = do
    let found = take (suc limit) table
    raise_if (ltb limit (length found)) exceeded
    read_all columns found

  -- `not isinstance(run_id, str) or not run_id.strip()`
  unfoldable pub required_run_id : Value → Outcome String
  required_run_id (str s) =
      if truthy (platform.strip s)
      then ok s
      else raise (builtin value_error "fala read: run_id must be non-empty text")
  required_run_id _ = raise (builtin value_error "fala read: run_id must be non-empty text")

  unfoldable pub list_runs : Opening → Limit → Outcome (List Fields)
  list_runs source max_rows = do
    limit ← read_limit max_rows
    j ← open_journal source
    read_bounded run_columns limit (read_error "run row limit exceeded") j.runs

  abbrev pub read_first : List Record → Outcome (Option Fields)
  read_first [] = ok none
  read_first (r ∷ rs) = do fs ← read_record run_columns r; ok (some fs)

  unfoldable pub get_run : Opening → Value → Outcome (Option Fields)
  get_run source run_id = do
    s ← required_run_id run_id
    j ← open_journal source
    read_first (where_equals "id" s j.runs)

  unfoldable pub list_processes : Opening → Value → Limit → Outcome (List Fields)
  list_processes source run_id max_rows = do
    s ← required_run_id run_id
    limit ← read_limit max_rows
    j ← open_journal source
    read_bounded process_columns limit (read_error "process row limit exceeded")
        (where_equals "run_id" s j.processes)
