-- ===== src/Lifecycle/NativeTests.antt =====
-- A native journal that completes a process, and one that refuses.
use fala.Python.Tests.{echo_platform}
use fala.Python.Json.{spaced, escape, dumps}
use fala.Host.Answers.{settings}
use fala.Lifecycle.Guards.{IsCompletingCall}
use fala.Lifecycle.Completing.{IsCompletionOf, IsReadFrom}
use fala.Python.Outcome.{runtime_error, value_error, builtin, ok, raise, Outcome}
use fala.Python.Value.{dict, bool, end, str, field, Value, Fields}
use fala.Lifecycle.Calls.{encoded, status, required, complete_waiting_process, Call}
use fala.Lifecycle.Committed.{complete_waiting_process-returns, native_call-IsServed, IsServed}
use fala.Host.Directory.{enter, with_sqlite_cwd, Process, Place}
use fala.Lifecycle.Reply.{reworded, LifecycleResult}
use fala.Lifecycle.Native.{complete, native_call, Engine}
use fala.Prelude.{refl, String, ◌≡◌, [], true, none}

abbrev journal_process : Process
journal_process = record { cwd = "/home"; environ = []; roots = [] }

abbrev journal_place : Place
journal_place = record { sqlite_cwd = "/vendor"; is_dir = true; fresh_root = "/tmp/root" }

abbrev answer : Fields
answer = field "run_id" (str "run") (
    field "process_id" (str "process") (
      field "changed" (bool true)
        (field "process_status" (str "succeeded") (field "run_status" (str "completed") end))))

abbrev engine_with : Outcome Value → Engine
engine_with r = record { ready = ok tt; place = journal_place; run = λ operation payload p. (r, p) }

abbrev completed_result : LifecycleResult
completed_result = record {
  run_id = "run";
  process_id = "process";
  changed = true;
  process_status = "succeeded";
  run_status = "completed";
}

abbrev completing : Outcome Call
completing =
    complete_waiting_process "db" "now" (str "run") (str "process") none none (str "succeeded")
      (str "completed") (str "completed")

has_completed :
    (complete (engine_with (ok (dict answer))) completing journal_process).0 ≡ ok completed_result
unfolding complete complete_waiting_process required status encoded dumps escape with_sqlite_cwd
has_completed = refl

complete_waiting_process-returns_example :
    (call : Call) × IsCompletionOf "db" "now"
      (str "run")
      (str "process")
      none
      none
      (str "succeeded")
      (str "completed")
      (str "completed")
      call
    × IsCompletingCall call
    × (reply : Fields) × (payload : String) × (dumps spaced (dict call.request) ≡ ok payload)
    × (((engine_with (ok (dict answer))).run call.operation payload
          (enter journal_place none journal_process)).0
        ≡ ok (dict reply))
    × IsReadFrom reply completed_result
complete_waiting_process-returns_example =
    complete_waiting_process-returns (engine_with (ok (dict answer))) "db" "now" (str "run")
      (str "process") none none (str "succeeded") (str "completed") (str "completed")
      journal_process (complete (engine_with (ok (dict answer))) completing journal_process).1
      completed_result refl
      (λ i.
        (has_completed i, (complete (engine_with (ok (dict answer))) completing journal_process).1))

-- the native journal says that the schema is not the sixth
abbrev refusing : Engine
refusing = engine_with (raise (builtin value_error "incompatible journal"))

abbrev ensuring : Call
ensuring = record { operation = "ensure_journal"; request = field "db_path" (str "db") end }

native_call-IsServed_example :
    IsServed refusing ensuring journal_process (native_call refusing ensuring journal_process).0
    × (settings (native_call refusing ensuring journal_process).1 ≡ settings journal_process)
native_call-IsServed_example = native_call-IsServed refusing ensuring journal_process refl

refused :
    (native_call refusing ensuring journal_process).0
    ≡ raise (builtin runtime_error "incompatible journal")
unfolding native_call dumps escape with_sqlite_cwd reworded
refused = refl
