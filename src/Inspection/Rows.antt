-- ===== src/Inspection/Rows.antt =====
-- python/fala/inspection.py: what one process row says about its lease.
use fala.Prelude.{
  String, Bool, true, false, not, ◌&&◌, ◌||◌, List, [], ◌∷◌, if◌then◌else◌, ◌==◌, is_in,
}
use fala.Prelude.Int.{ℤ, pos, ltb_ℤ}
use fala.Python.Outcome.{Outcome, ok, raise, Error, builtin, protocol_error, out_of_fuel}
use fala.Python.Number.{Float, is_finite}
use fala.Python.Value.{Value, Fields, null as json_null, int, float, str, dict, end, field}
use fala.Python.Text.{truthy}
use fala.Python.Json.{Platform, join}
use fala.Inspection.Clock.{Calendar, Now, utc}

-- A value of a SQLite column. A blob is held by its hexadecimal spelling.
pub data Cell : Type 0 where
  null : Cell
  integer : ℤ → Cell
  real : Float → Cell
  text : String → Cell
  blob : String → Cell

pub record Row : Type 0 where
  pub run_id : Cell
  pub process_id : Cell
  pub status : Cell
  pub owner : Cell
  pub expires : Cell
  pub attempt : Cell
  pub max_attempts : Cell
  pub run_status : Cell

abbrev pub process_statuses : List String
process_statuses =
    "pending" ∷ "ready" ∷ "running" ∷ "waiting" ∷ "retry_wait" ∷ "succeeded" ∷ "failed" ∷ "skipped"
    ∷ "cancel_requested" ∷ "cancelled" ∷ "timed_out" ∷ []

abbrev pub run_statuses : List String
run_statuses =
    "created" ∷ "active" ∷ "waiting" ∷ "completed" ∷ "failed" ∷ "cancel_requested" ∷ "cancelled"
    ∷ "timed_out" ∷ []

-- `isinstance(x, str) and x`
abbrev pub is_name : Cell → Bool
is_name (Cell.text s) = truthy s
is_name _ = false

abbrev pub is_null : Cell → Bool
is_null Cell.null = true
is_null _ = false

abbrev pub is_one_of : List String → Cell → Bool
is_one_of names (Cell.text s) = is_in s names
is_one_of names _ = false

-- `isinstance(x, int) and x >= least`
abbrev pub is_at_least : ℤ → Cell → Bool
is_at_least least (integer n) = not (ltb_ℤ n least)
is_at_least least _ = false

-- both are integers, the second is positive, and the first is greater
abbrev pub exceeds : Cell → Cell → Bool
exceeds (integer a) (integer m) = not (ltb_ℤ m (pos 1)) && ltb_ℤ m a
exceeds _ _ = false

-- `if bad: malformed.append(message)`
abbrev pub noted : Bool → String → List String → List String
noted true message rest = message ∷ rest
noted false message rest = rest

unfoldable pub malformed : Row → List String
malformed r = noted (not (is_name r.run_id)) "run_id must be non-empty TEXT" (
    noted (not (is_name r.process_id)) "process_id must be non-empty TEXT" (
      noted (not (is_one_of process_statuses r.status))
        "process status must be an allowed TEXT value"
        (noted (not (is_one_of run_statuses r.run_status))
          "run status must be an allowed TEXT value"
          (noted (not (is_null r.owner) && not (is_name r.owner))
            "lease owner must be NULL or non-empty TEXT"
            (noted (not (is_null r.expires) && not (is_name r.expires))
              "lease expiry must be NULL or non-empty TEXT"
              (noted (not (is_at_least (pos 0) r.attempt)) "attempt must be a non-negative INTEGER"
                (noted (not (is_at_least (pos 1) r.max_attempts))
                  "max_attempts must be a positive INTEGER"
                  (noted (exceeds r.attempt r.max_attempts) "attempt must not exceed max_attempts"
                    []))))))))

-- An entry of "uncertainty" or "errors": its code, its message and its JSON-safe context.
pub record Issue : Type 0 where
  pub code : String
  pub message : String
  pub context : Fields

-- An entry of "current" or "expired".
pub record Lease : Type 0 where
  pub run_id : Cell
  pub process_id : Cell
  pub owner : Cell
  pub expiry : ℤ
  pub attempt : Cell
  pub max_attempts : Cell
  pub status : Cell
  pub run_status : Cell

-- What the loop does with a row: it appends to one of three lists, or goes on.
pub data Verdict : Type 0 where
  uncertain : Issue → Verdict
  unleased : Verdict
  current : Lease → Verdict
  expired : Lease → Verdict

abbrev pub is_text : String → Cell → Bool
is_text s (Cell.text t) = t == s
is_text s _ = false

abbrev pub message_of : Error → String
message_of (builtin _ message) = message
message_of (protocol_error code pointer) = code
message_of out_of_fuel = ""

module _ ⦃platform : Platform⦄ where
  -- `_json_safe`, on what a column holds
  unfoldable pub json_safe : Cell → Value
  json_safe Cell.null = json_null
  json_safe (integer n) = int n
  json_safe (real x) = if is_finite x then float x else str (platform.text_of (float x))
  json_safe (Cell.text s) = str s
  json_safe (blob hex) = dict (field "storage_class" (str "blob") (field "hex" (str hex) end))

  abbrev pub row_context : Row → Fields
  row_context r =
      field "run_id" (json_safe r.run_id) (field "process_id" (json_safe r.process_id) end)

  unfoldable pub malformed_row : Row → List String → Issue
  unfolding json_safe
  malformed_row r problems = record {
    code = "malformed_process_row";
    message = join "; " problems;
    context = field "status" (json_safe r.status) (
        field "run_status" (json_safe r.run_status) (
          field "attempt" (json_safe r.attempt) (
            field "max_attempts" (json_safe r.max_attempts) (
              field "lease_owner" (json_safe r.owner)
                (field "lease_expires_at" (json_safe r.expires) (row_context r))))));
  }

abbrev pub lease_of : Row → ℤ → Lease
lease_of r expiry = record {
  run_id = r.run_id;
  process_id = r.process_id;
  owner = r.owner;
  expiry = expiry;
  attempt = r.attempt;
  max_attempts = r.max_attempts;
  status = r.status;
  run_status = r.run_status;
}

module _ ⦃platform : Platform⦄ (calendar : Calendar) where
  -- `_utc(expires)`
  abbrev pub expiry_of : Cell → Outcome ℤ
  expiry_of (Cell.text s) = utc calendar (Now.text s)
  expiry_of Cell.null = utc calendar Now.absent
  expiry_of _ = utc calendar Now.other

module _ ⦃platform : Platform⦄ (calendar : Calendar) (observed : ℤ) where
  abbrev pub leased : Row → Outcome ℤ → Verdict
  leased r (ok expiry) =
      if not (ltb_ℤ observed expiry)
      then expired (lease_of r expiry)
      else current (lease_of r expiry)
  leased r (raise e) = uncertain (record {
    code = "invalid_lease_expiry";
    message = message_of e;
    context = field "lease_expires_at" (json_safe r.expires) (row_context r);
  })

  -- the rest of the loop body, for a row that is not malformed
  unfoldable pub inspect_sound : Row → Verdict
  unfolding utc json_safe
  inspect_sound r =
      if not (is_text "running" r.status)
      then (if not (is_null r.owner) || not (is_null r.expires)
          then uncertain (record {
            code = "lease_on_non_running_process";
            message = "lease fields exist on a process that is not running";
            context = field "status" (json_safe r.status) (row_context r);
          })
          else unleased)
      else if is_null r.owner || is_null r.expires
      then uncertain (record {
        code = "incomplete_process_lease";
        message = "running process lease requires owner and expiry";
        context = row_context r;
      })
      else if not (is_text "active" r.run_status)
      then uncertain (record {
        code = "lease_outside_active_run";
        message = "running process lease does not belong to an active run";
        context = field "run_status" (json_safe r.run_status) (row_context r);
      })
      else leased r (expiry_of calendar r.expires)

  abbrev pub judged : Row → List String → Verdict
  judged r [] = inspect_sound r
  judged r (p ∷ ps) = uncertain (malformed_row r (p ∷ ps))

  unfoldable pub inspect_row : Row → Verdict
  unfolding malformed inspect_sound malformed_row
  inspect_row r = judged r (malformed r)
