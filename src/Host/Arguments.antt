-- ===== src/Host/Arguments.antt =====
-- python/fala/host.py: the requests of `maintain_journal`, `recover_incomplete` and
-- `delete_terminal_run`, and what is checked before. Paths are resolved texts.
use fala.Prelude.{String, ◌<>◌, Bool, not, ◌||◌, Option, none, some, is_some, if◌then◌else◌}
use fala.Prelude.Int.{ℤ, pos, negsuc, ltb_ℤ}
use fala.Python.Number.{Float, whole, is_finite, number_lt}
use fala.Python.Outcome.{
  ◌>>=◌, ◌>>◌, Outcome, ok, raise, raise_if, Error, builtin, type_error, value_error,
  overflow_error, file_not_found,
}
use fala.Python.Value.{Value, Fields, bool, int, float, str, end, field}
use fala.Python.Text.{truthy, str_lt, ends_with_char, without_last}
use fala.Python.Json.{Platform}
use fala.Inspection.Clock.{Calendar}
use fala.Host.Directory.{Place}

-- What the calls find outside.
pub record World : Type 0 where
  pub is_file : String → Bool
  pub is_dir : String → Bool
  -- `ensure_sqlite_fire_library` and `ensure_native`
  pub ready : Outcome (Unit {0})
  pub place : Place
  -- `json.dumps(request, sort_keys=True)`; the keys of a request to delete are in order already
  pub encode : Fields → Outcome String
  -- `float(n)` of an int; `none` is an OverflowError
  pub to_float : ℤ → Option Float
  pub calendar : Calendar

abbrev rounded : Option Float → Outcome Float
rounded none = raise (builtin overflow_error "")
rounded (some x) = ok x

-- `older_than_days`
abbrev pub age_of : (ℤ → Option Float) → Value → Outcome Float
age_of to_float (int n) = rounded (to_float n)
age_of to_float (float x) = ok x
age_of to_float _ =
    raise (builtin type_error "fala.maintain_journal: older_than_days must be numeric")

-- `keep_last`
abbrev pub kept_runs : Value → Outcome ℤ
kept_runs (int n) =
    if ltb_ℤ n (negsuc 0)
    then raise (builtin value_error "fala.maintain_journal: keep_last must be -1 or non-negative")
    else ok n
kept_runs _ =
    raise (builtin value_error "fala.maintain_journal: keep_last must be -1 or non-negative")

-- `vacuum` and `dry_run`
abbrev pub flag : Value → Outcome Bool
flag (bool b) = ok b
flag _ = raise (builtin type_error "fala.maintain_journal: vacuum and dry_run must be bool")

-- `reaction_root`
abbrev pub reaction_root_of : (String → Bool) → Option String → Outcome String
reaction_root_of is_dir none = ok ""
reaction_root_of is_dir (some root) =
    if is_dir root
    then ok root
    else raise (builtin file_not_found ("fala.maintain_journal: reaction root not found: " <> root))

-- `_durable_database`
unfoldable pub durable_database : (String → Bool) → String → String → Outcome String
durable_database is_file db operation =
    if is_file db
    then ok db
    else raise (builtin file_not_found ("fala." <> (operation <> (": database not found: " <> db))))

-- `worker_id` and `run_id`: `str(x or "").strip()` of a text
abbrev pub named : ⦃platform : Platform⦄ → String → Error → Outcome String
named ⦃platform⦄ name e = if truthy (platform.strip name) then ok (platform.strip name) else raise e

-- `timestamp` of `recover_incomplete`
unfoldable pub timestamp : Calendar → (value label : String) → Outcome String
timestamp calendar value label =
    if not (ends_with_char 90 value)
    then raise (
        builtin value_error (
          "fala.recover_incomplete: "
          <> (label <> " must be an ISO-8601 UTC timestamp ending in Z")))
    else if is_some (calendar.from_iso (without_last value <> "+00:00"))
    then ok value
    else raise (builtin value_error ("fala.recover_incomplete: invalid " <> label))

-- `retry_available_at or at`
abbrev pub text_or : String → Option String → String
text_or default none = default
text_or default (some s) = if truthy s then s else default

module _ ⦃platform : Platform⦄ (world : World) where
  -- The request of `maintain_journal`, or the exception that is raised before there is one.
  unfoldable pub maintain_request :
      (db : String) (older_than_days keep_last vacuum dry_run : Value)
      (reaction_root : Option String)
      → Outcome Fields
  maintain_request db older_than_days keep_last vacuum dry_run reaction_root = do
    age ← age_of world.to_float older_than_days
    raise_if (not (is_finite age) || number_lt age (whole (pos 0))) (
        builtin value_error
          "fala.maintain_journal: older_than_days must be finite and non-negative")
    keep ← kept_runs keep_last
    v ← flag vacuum
    d ← flag dry_run
    database ← durable_database world.is_file db "maintain_journal"
    root ← reaction_root_of world.is_dir reaction_root
    ok (
        field "db_path" (str database) (
          field "older_than_days" (float age) (
            field "keep_last" (int keep) (
              field "vacuum" (bool v)
                (field "dry_run" (bool d) (field "reaction_root" (str root) end))))))

  unfoldable pub recover_request :
      (db worker_id now : String) (retry_available_at : Option String) → Outcome Fields
  recover_request db worker_id now retry_available_at = do
    worker ←
        named worker_id (builtin value_error "fala.recover_incomplete: worker_id must not be blank")
    at ← timestamp world.calendar now "now"
    due ← timestamp world.calendar (text_or at retry_available_at) "retry_available_at"
    raise_if (str_lt due at)
        (builtin value_error "fala.recover_incomplete: retry_available_at must not precede now")
    database ← durable_database world.is_file db "recover_incomplete"
    ok (
        field "db_path" (str database) (
          field "worker_id" (str worker)
            (field "now" (str at) (field "retry_available_at" (str due) end))))

  unfoldable pub delete_request : (db run_id : String) → Outcome (String × Fields)
  delete_request db run_id = do
    rid ← named run_id (builtin value_error "fala.delete_terminal_run: run_id must not be blank")
    database ← durable_database world.is_file db "delete_terminal_run"
    ok (rid, field "db_path" (str database) (field "run_id" (str rid) end))
