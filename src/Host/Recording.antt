-- ===== src/Host/Recording.antt =====
-- python/fala/host.py: `record_in_process`. The native journal is what it answers to a call, given the
-- calls that it has committed: nothing, or the message of an exception. Its libraries are there, and the
-- process around a call of it is that of `Directory`.
use text.Mathlib.Text.{starts_with}
use fala.Prelude.{String, ◌<>◌, Option, none, some, List, [], ◌∷◌, ◌++◌, if◌then◌else◌, is_in}
use fala.Python.Outcome.{value_error, runtime_error, Error, builtin, Outcome, ok, raise}
use fala.Python.Effect.{Action, pure, lift, run_finally, ◌>>=◌, ◌>>◌}
use fala.Python.Value.{Value, Fields, str, end, field}
use fala.Python.Text.{contains}
use fala.Python.Json.{Platform}
use fala.Lifecycle.Calls.{Call}
use fala.Host.Directory.{discard}
use fala.Host.Tasks.{Task, in_process, record_json, exception_json, prepare}

-- The databases with a callback in flight, and the calls that the journal has committed, in order.
pub record Ledger : Type 0 where
  pub busy : List String
  pub committed : List Call

abbrev pub Native : Type 0
Native = List Call → Call → Option String

-- the `except` of `_native`
abbrev pub native_error : String → String → Error
native_error operation message =
    if contains message "disappeared"
    then builtin runtime_error message
    else if starts_with message "fala.record_in_process:"
    then builtin value_error message
    else builtin runtime_error (in_process (operation <> (" failed: " <> message)))

abbrev replied : Call → Option String → Action Ledger (Unit {0})
replied call none s = (ok tt, record s { committed = s.committed ++ call ∷ [] })
replied call (some message) s = (raise (native_error call.operation message), s)

-- `_native`
unfoldable pub send : Native → Call → Action Ledger (Unit {0})
send native call s = replied call (native s.committed call) s

abbrev pub start_call : Task → Call
start_call t = record {
  operation = "record_process_start";
  request = field "db_path" (str t.db) (
      field "run_id" (str t.run_id) (
        field "process_id" (str t.process_id) (
          field "process_type" (str t.process_type) (
            field "input_json" (str t.input_json)
              (field "metadata_json" (str t.metadata_json) (field "now" (str t.started) end))))));
}

abbrev pub finish_call : Task → (status output_json error_json : String) → Call
finish_call t status output_json error_json = record {
  operation = "record_process_finish";
  request = field "db_path" (str t.db) (
      field "run_id" (str t.run_id) (
        field "process_id" (str t.process_id) (
          field "status" (str status) (
            field "output_json" (str output_json)
              (field "error_json" (str error_json) (field "now" (str t.finished) end))))));
}

-- `try: body except Exception: note`
abbrev pub ignoring : Action Ledger (Unit {0}) → Action Ledger (Unit {0})
ignoring body s = (ok tt, (body s).1)

module _ ⦃platform : Platform⦄ (native : Native) (task : Task) where
  -- the `except BaseException` of the callback: the exception is raised again, whatever the journal says
  unfoldable pub record_failure : Error → Action Ledger Value
  record_failure e = do
    error_json ← lift (exception_json e)
    ignoring (send native (finish_call task "failed" "{}" error_json))
    lift (raise e)

  abbrev pub record_output : Value → Outcome String → Action Ledger Value
  record_output v (ok output_json) = do
    send native (finish_call task "succeeded" output_json "{}")
    pure v
  record_output v (raise e) = do
    error_json ← lift (exception_json e)
    send native (finish_call task "failed" "{}" error_json)
    lift (raise e)

  unfoldable pub settle : Outcome Value → Action Ledger Value
  settle (ok v) = record_output v (record_json v "operation result")
  settle (raise e) = record_failure e

  abbrev pub run_callback : Action Ledger Value → Action Ledger Value
  run_callback operation s = settle (operation s).0 (operation s).1

  -- the `try` inside the lock
  unfoldable pub record_callback : Action Ledger Value → Action Ledger Value
  record_callback operation = do send native (start_call task); run_callback operation

  -- the lock, which is released in every case, and does not wait
  unfoldable pub record_task : Action Ledger Value → Action Ledger Value
  record_task operation s =
      if is_in task.db s.busy
      then (
        raise (builtin runtime_error (in_process ("execution already active for " <> task.db))),
        s,
      )
      else run_finally (λ t. record t { busy = discard task.db t.busy }) (record_callback operation)
          (record s { busy = task.db ∷ s.busy })

module _ ⦃platform : Platform⦄ where
  -- `record_in_process`
  unfoldable pub record_in_process :
      (native : Native) (db : String) (run_id process_id process_type : Value)
      (inputs metadata : Option Fields) (started finished : String)
      → Action Ledger Value
      → Action Ledger Value
  record_in_process native db run_id process_id process_type inputs metadata started finished
        operation =
      do
        task ← lift (prepare db run_id process_id process_type inputs metadata started finished)
        record_task native task operation
