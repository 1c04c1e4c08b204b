-- ===== src/Inspection/Leases.antt =====
-- python/fala/inspection.py: `inspect_leases`. The database is what its two queries return; a query
-- that fails is a `sqlite3.Error` with its message.
use fala.Prelude.{
  ℕ, zero, suc, String, Bool, true, false, not, ◌&&◌, ◌||◌, Option, none, some, List, [], ◌∷◌, ◌++◌,
  if◌then◌else◌,
}
use fala.Prelude.Int.{ℤ, pos, eqb_ℤ}
use fala.Python.Number.{whole, number_eq}
use fala.Python.Outcome.{Outcome, ok, raise}
use fala.Python.Value.{int, end, field}
use fala.Python.Json.{Platform}
use fala.Inspection.Clock.{Calendar, Now, utc}
use fala.Inspection.Rows.{
  Cell, integer, real, Row, Issue, Lease, Verdict, uncertain, unleased, current, expired,
  inspect_row, message_of,
}

-- The result, without its constant fields.
pub record Inspection : Type 0 where
  pub observed_at : Option ℤ
  pub current : List Lease
  pub expired : List Lease
  pub uncertainty : List Issue
  pub errors : List Issue
  pub complete : Bool

-- What `max_rows` may be.
pub data Limit : Type 0 where
  rows : ℤ → Limit
  no_integer : Limit

-- What the connection answers: the version row, `PRAGMA user_version` and the process rows.
pub record Database : Type 0 where
  pub schema_version : Option Cell
  pub user_version : Option Cell
  pub process_rows : List Row

-- The database file, from `resolve` to the last row read.
pub data Source : Type 0 where
  unavailable : String → Source
  failing : String → Source
  readable : Database → Source

-- `_envelope`
abbrev pub envelope : Inspection
envelope = record {
  observed_at = none;
  current = [];
  expired = [];
  uncertainty = [];
  errors = [];
  complete = false;
}

abbrev pub plain_issue : String → String → Issue
plain_issue code message = record { code = code; message = message; context = end }

abbrev pub with_error : Issue → Inspection → Inspection
with_error issue r = record r { errors = r.errors ++ issue ∷ [] }

-- `isinstance(max_rows, int) and max_rows >= 1`, as a number of rows
abbrev pub positive_limit : Limit → Option ℕ
positive_limit (rows (pos (suc n))) = some (suc n)
positive_limit _ = none

-- `version == 6`, of a number of either kind
abbrev pub is_six : Option Cell → Bool
is_six (some (integer n)) = eqb_ℤ n (pos 6)
is_six (some (real x)) = number_eq x (whole (pos 6))
is_six _ = false

-- The reading loop: the rows up to the limit, and whether there was one more.
abbrev pub read_rows : ℕ → List Row → List Row × Bool
read_rows n [] = ([], false)
read_rows zero (r ∷ rs) = ([], true)
read_rows (suc n) (r ∷ rs) = let (kept, more) = read_rows n rs in (r ∷ kept, more)

abbrev pub record_verdict : Verdict → Inspection → Inspection
record_verdict (uncertain issue) s = record s { uncertainty = s.uncertainty ++ issue ∷ [] }
record_verdict unleased s = s
record_verdict (current lease) s = record s { current = s.current ++ lease ∷ [] }
record_verdict (expired lease) s = record s { expired = s.expired ++ lease ∷ [] }

abbrev pub is_empty : List Issue → Bool
is_empty [] = true
is_empty (_ ∷ _) = false

-- `result["complete"] = not result["errors"] and not result["uncertainty"]`
abbrev pub complete_if_clean : Inspection → Inspection
complete_if_clean s = record s { complete = is_empty s.errors && is_empty s.uncertainty }

abbrev pub row_limit_exceeded : ℕ → Issue
row_limit_exceeded limit = record {
  code = "row_limit_exceeded";
  message = "lease inspection row limit exceeded";
  context = field "max_rows" (int (pos limit)) end;
}

module _ ⦃platform : Platform⦄ (calendar : Calendar) where
  unfoldable pub inspect_rows : ℤ → List Row → Inspection → Inspection
  inspect_rows observed [] s = s
  inspect_rows observed (r ∷ rs) s =
      inspect_rows observed rs (record_verdict (inspect_row calendar observed r) s)

  abbrev pub scanned : ℤ → ℕ → List Row × Bool → Inspection → Inspection
  scanned observed limit (kept, more) s =
      complete_if_clean
        (inspect_rows observed kept (if more then with_error (row_limit_exceeded limit) s else s))

  unfoldable pub inspect_database : ℤ → ℕ → Database → Inspection → Inspection
  unfolding inspect_rows
  inspect_database observed limit db s =
      if not (is_six db.schema_version) || not (is_six db.user_version)
      then with_error (plain_issue "unsupported_schema" "Fala schema v6 is required") s
      else scanned observed limit (read_rows limit db.process_rows) s

  abbrev pub inspect_source : ℤ → ℕ → Source → Inspection → Inspection
  inspect_source observed limit (unavailable message) s =
      with_error (plain_issue "database_unavailable" message) s
  inspect_source observed limit (failing message) s =
      with_error (plain_issue "database_error" message) s
  inspect_source observed limit (readable db) s = inspect_database observed limit db s

  abbrev pub limited : ℤ → Option ℕ → Source → Inspection → Inspection
  limited observed none source s =
      with_error (plain_issue "invalid_limit" "max_rows must be a positive integer") s
  limited observed (some limit) source s = inspect_source observed limit source s

  abbrev pub observed_by : Outcome ℤ → Limit → Source → Inspection
  observed_by (raise e) limit source =
      with_error (plain_issue "invalid_now" (message_of e)) envelope
  observed_by (ok observed) limit source =
      limited observed (positive_limit limit) source
        (record envelope { observed_at = some observed })

  -- `inspect_leases`
  unfoldable pub inspect_leases : Now → Limit → Source → Inspection
  unfolding utc inspect_database
  inspect_leases now limit source = observed_by (utc calendar now) limit source
