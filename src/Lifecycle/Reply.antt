-- ===== src/Lifecycle/Reply.antt =====
-- python/fala/journal.py: how the native journal's exceptions are translated, and how the reply to
-- `complete_waiting_process` is read. A message that quotes the repr of a reply is kept up to that.
use fala.Prelude.{String, ◌<>◌, Bool, ◌||◌, none, some, if◌then◌else◌}
use fala.Python.Outcome.{
  Outcome, ok, raise, Error, builtin, type_error, value_error, runtime_error, key_error, ◌>>=◌,
}
use fala.Python.Value.{Value, Fields, dict, get}
use fala.Python.Text.{contains}
use fala.Python.Json.{Platform}
use fala.Sdk.Inputs.{value_truthy}
use fala.Host.Tasks.{error_text}
use fala.Lifecycle.Calls.{spelled}

-- The messages of the native journal, as the exceptions that its callers see.
unfoldable pub reworded : (operation message : String) → Error
reworded operation message =
    if contains message "incompatible"
      || contains message "schema-v6"
      || contains message "initialization incomplete"
    then builtin runtime_error message
    else if contains message "fala journal:" || contains message "fala.record_in_process:"
    then (if contains message "is not JSON-recordable"
        then builtin type_error message
        else builtin value_error message)
    else builtin runtime_error ("fala journal: " <> (operation <> (" failed: " <> message)))

abbrev pub translated : (operation : String) → Outcome Value → Outcome Value
translated operation (ok out) = ok out
translated operation (raise e) = raise (reworded operation (error_text e))

pub record LifecycleResult : Type 0 where
  pub run_id : String
  pub process_id : String
  pub changed : Bool
  pub process_status : String
  pub run_status : String

module _ ⦃platform : Platform⦄ where
  -- `str(result[key])`
  abbrev pub text_at : String → Fields → Outcome String
  text_at key fs = elim (get key fs) [
    | none ↦ raise (builtin key_error "")
    | some v ↦ ok (spelled v)
  ]

  -- `bool(result[key])`
  abbrev pub truth_at : String → Fields → Outcome Bool
  truth_at key fs = elim (get key fs) [
    | none ↦ raise (builtin key_error "")
    | some v ↦ ok (value_truthy v)
  ]

  unfoldable pub result_of : Fields → Outcome LifecycleResult
  result_of fs = do
    rid ← text_at "run_id" fs
    pid ← text_at "process_id" fs
    changed ← truth_at "changed" fs
    pstatus ← text_at "process_status" fs
    rstatus ← text_at "run_status" fs
    ok (record {
      run_id = rid;
      process_id = pid;
      changed = changed;
      process_status = pstatus;
      run_status = rstatus;
    })

  -- the end of `complete_waiting_process`
  abbrev pub result_from : Value → Outcome LifecycleResult
  result_from (dict fs) = result_of fs
  result_from _ = raise (builtin runtime_error "fala journal: complete_waiting_process returned ")
