-- ===== src/Host/Tests.antt =====
-- A process with one variable, a journal that takes every call, and a native engine that answers.
use fala.Prelude.{String, ◌≡◌, refl, true, false, none, List, [], ◌∷◌, ◌++◌, is_in}
use fala.Prelude.Int.{pos}
use fala.Python.Outcome.{Outcome, ok, raise, Error, builtin, value_error}
use fala.Python.Effect.{Action, pure}
use fala.Python.Value.{Value, Fields, str, dict, end, get}
use fala.Python.Json.{dumps, escape}
use fala.Python.Tests.{echo_platform}
use fala.Sdk.Effector.{variable}
use fala.Host.Directory.{Process, Place, root_variable, with_sqlite_cwd}
use fala.Host.Restored.{with_sqlite_cwd-restores}
use fala.Host.Tasks.{Task, record_json, exception_json}
use fala.Host.Recording.{
  Ledger, send, settle, finish_call, start_call, record_callback, record_task,
}
use fala.Host.Flights.{IsFair}
use fala.Host.Recorded.{in_flight, entered, record_task_returned, record_task_raised}
use fala.Host.Memory.{text, open_memory, drive}
use fala.Host.Built.{
  Command, with_path, with_output, build, last_set, sets_output, sets_path, sets_impulse, driven,
  drive-build,
}

abbrev place : Place
place = record { sqlite_cwd = "/vendor"; is_dir = true; fresh_root = "/tmp/root" }

abbrev process : Process
process = record { cwd = "/home"; environ = ("PATH", "/bin") ∷ []; roots = [] }

-- a callback that goes elsewhere and overwrites a variable
abbrev stray : Action Process String
stray p = (ok "done", record p { cwd = "/else"; environ = (root_variable, "/x") ∷ p.environ })

with_sqlite_cwd-restores_example :
    ((with_sqlite_cwd place none stray process).0 ≡ ok "done")
    × ((with_sqlite_cwd place none stray process).1.cwd ≡ "/home")
    × (variable root_variable (with_sqlite_cwd place none stray process).1.environ ≡ none)
    × (is_in "/tmp/root" (with_sqlite_cwd place none stray process).1.roots ≡ false)
with_sqlite_cwd-restores_example = with_sqlite_cwd-restores place none stray process root_variable

abbrev ledger : Ledger
ledger = record { busy = "other.db" ∷ []; committed = [] }

abbrev task : Task
task = record {
  db = "a.db";
  run_id = "r";
  process_id = "p";
  process_type = "t";
  input_json = "{}";
  metadata_json = "{}";
  started = "1";
  finished = "2";
}

abbrev work : Action Ledger Value
work = pure (str "out")

work-IsFair : IsFair work
work-IsFair s = refl

abbrev boom : Error
boom = builtin value_error "boom"

abbrev broken : Action Ledger Value
broken s = (raise boom, s)

recorded : record_task (λ committed call. none) task work ledger ≡ (
  ok (str "out"),
  record ledger { committed = start_call task ∷ finish_call task "succeeded" "\"out\"" "{}" ∷ [] },
)
unfolding record_task record_callback settle send record_json dumps escape
recorded = refl

record_task_returned_example :
    ((work (in_flight task ledger)).0 ≡ ok (str "out"))
    × (out : String) × (record_json (str "out") "operation result" ≡ ok out)
    × ((start_call task ∷ finish_call task "succeeded" "\"out\"" "{}" ∷ [])
        ≡ (work (in_flight task ledger)).1.committed ++ finish_call task "succeeded" out "{}" ∷ [])
record_task_returned_example =
    record_task_returned (λ committed call. none) task work ledger
      (record ledger {
        committed = start_call task ∷ finish_call task "succeeded" "\"out\"" "{}" ∷ [];
      })
      (str "out") recorded

record_task_raised_example :
    ((record_task (λ committed call. none) task broken ledger).0 ≡ raise boom)
    × (error_json : String) × (exception_json boom ≡ ok error_json)
    × ((record_task (λ committed call. none) task broken ledger).1.committed
        ≡ (broken (in_flight task ledger)).1.committed
          ++ entered
              (λ committed call. none)
              (broken (in_flight task ledger)).1.committed
              (finish_call task "failed" "{}" error_json))
record_task_raised_example =
    record_task_raised (λ committed call. none) task broken ledger boom refl refl refl

-- a builder that is called twice for one effector
abbrev commands : List Command
commands =
    with_path "old" []
    ∷ with_output "e" (text "1")
    ∷ with_path "new" []
    ∷ with_output "e" (text "2")
    ∷ []

abbrev echo_native : String → Outcome Value
echo_native payload = ok (dict end)

drive-build_example :
    (outputs : Fields) × ((effector_id : String)
      → get effector_id outputs ≡ last_set (sets_output effector_id) commands)
    × ((drive (λ v. ok "") echo_native (pos 3) (build commands (open_memory "r" "s" "t"))).0
        ≡ driven
            (λ v. ok "")
            echo_native
            ("r", "s", "t")
            (pos 3)
            (last_set sets_path commands)
            outputs
            (last_set sets_impulse commands))
drive-build_example = drive-build (λ v. ok "") echo_native commands "r" "s" "t" (pos 3)
