-- ===== src/Host/Tasks.antt =====
-- python/fala/host.py: what `record_in_process` checks and spells before it takes its lock.
use fala.Prelude.{String, ◌<>◌, not, ◌||◌, Option, if◌then◌else◌}
use fala.Python.Outcome.{
  raise_if, ◌>>=◌, ◌>>◌, Class, type_error, value_error, runtime_error, overflow_error,
  file_not_found, key_error, os_error, attribute_error, process_error, Error, protocol_error,
  builtin, out_of_fuel, Outcome, ok, raise,
}
use fala.Python.Value.{Value, Fields, str, dict, end, field}
use fala.Python.Text.{truthy}
use fala.Python.Json.{Platform, compact, dumps}
use fala.Lifecycle.Calls.{spelled, fields_or}

-- What is known once the arguments are checked: resolved names, JSON texts, and the two times.
pub record Task : Type 0 where
  pub db : String
  pub run_id : String
  pub process_id : String
  pub process_type : String
  pub input_json : String
  pub metadata_json : String
  pub started : String
  pub finished : String

abbrev pub in_process : String → String
in_process message = "fala.record_in_process: " <> message

-- `type(exc).__name__` and `str(exc)`
abbrev pub class_name : Class → String
class_name type_error = "TypeError"
class_name value_error = "ValueError"
class_name runtime_error = "RuntimeError"
class_name overflow_error = "OverflowError"
class_name file_not_found = "FileNotFoundError"
class_name key_error = "KeyError"
class_name os_error = "OSError"
class_name process_error = "CalledProcessError"
class_name attribute_error = "AttributeError"

abbrev pub error_name : Error → String
error_name (protocol_error code pointer) = "ProtocolError"
error_name (builtin c message) = class_name c
error_name out_of_fuel = ""

abbrev pub error_text : Error → String
error_text (protocol_error code pointer) =
    code <> (" at " <> (if truthy pointer then pointer else "/"))
error_text (builtin c message) = message
error_text out_of_fuel = ""

-- the `except` of `_record_json`
abbrev pub recordable : String → Outcome String → Outcome String
recordable label (ok t) = ok t
recordable label (raise (builtin type_error _)) =
    raise (builtin type_error (in_process (label <> " is not JSON-recordable")))
recordable label (raise (builtin value_error _)) =
    raise (builtin type_error (in_process (label <> " is not JSON-recordable")))
recordable label (raise e) = raise e

module _ ⦃platform : Platform⦄ where
  -- `_record_json`
  unfoldable pub record_json : Value → String → Outcome String
  record_json value label = recordable label (dumps compact value)

  unfoldable pub exception_json : Error → Outcome String
  unfolding record_json dumps
  exception_json e =
      record_json
        (dict (field "message" (str (error_text e)) (field "type" (str (error_name e)) end)))
        "exception"

  abbrev pub stripped : Value → String
  stripped v = platform.strip (spelled v)

  -- The arguments, up to the lock. `operation` is callable by its type.
  unfoldable pub prepare :
      (db : String) (run_id process_id process_type : Value) (inputs metadata : Option Fields)
      (started finished : String)
      → Outcome Task
  prepare db run_id process_id process_type inputs metadata started finished = do
    raise_if
        (not (truthy (stripped run_id))
          || (not (truthy (stripped process_id)) || not (truthy (stripped process_type))))
        (builtin value_error (in_process "run_id, process_id, and process_type must not be blank"))
    i ← record_json (dict (fields_or end inputs)) "inputs"
    m ← record_json (dict (fields_or end metadata)) "metadata"
    ok (record {
      db = db;
      run_id = stripped run_id;
      process_id = stripped process_id;
      process_type = stripped process_type;
      input_json = i;
      metadata_json = m;
      started = started;
      finished = finished;
    })
