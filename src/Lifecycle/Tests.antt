-- ===== src/Lifecycle/Tests.antt =====
-- Calls on one journal. The properties of the lifecycle are applied to them.
use fala.Prelude.{◌≡◌, refl, false, none, some}
use fala.Prelude.Int.{pos}
use fala.Python.Outcome.{ok, raise, builtin, value_error}
use fala.Python.Value.{bool, int, str, end, field}
use fala.Python.Json.{dumps, escape}
use fala.Python.Tests.{echo_platform}
use fala.Lifecycle.Calls.{
  Call, required, status, encoded, transition_run, finalize_run, upsert_process,
  complete_waiting_process,
}

abbrev process_call : Call
process_call = record {
  operation = "upsert_process";
  request = field "db_path" (str "db") (
      field "run_id" (str "run") (
        field "process_id" (str "process") (
          field "status" (str "ready") (
            field "process_type" (str "external") (
              field "attempt" (int (pos 1)) (
                field "input_json" (str "{}") (
                  field "output_json" (str "{}") (
                    field "error_json" (str "{}")
                      (field "metadata_json" (str "{}") (field "now" (str "now") end))))))))));
}

process_sent :
    upsert_process "db" "now"
      (str "run")
      (str "process")
      (str "ready")
      none
      none
      none
      none
      (int (pos 1))
      (str "external")
    ≡ ok process_call
unfolding upsert_process required status encoded dumps escape
process_sent = refl

abbrev completing_call : Call
completing_call = record {
  operation = "complete_waiting_process";
  request = field "db_path" (str "db") (
      field "run_id" (str "run") (
        field "process_id" (str "process") (
          field "process_status" (str "succeeded") (
            field "run_status" (str "completed") (
              field "blocker_id" (str "") (
                field "has_blocker" (bool false) (
                  field "blocker_status" (str "completed") (
                    field "output_json" (str "{\"completed\": true}")
                      (field "now" (str "now") end)))))))));
}

completing_sent :
    complete_waiting_process "db" "now"
      (str "run")
      (str "process")
      none
      none
      (str "succeeded")
      (str "completed")
      (str "completed")
    ≡ ok completing_call
unfolding complete_waiting_process required status encoded dumps escape
completing_sent = refl

abbrev final_call : Call
final_call = record {
  operation = "transition_run";
  request = field "db_path" (str "db") (
      field "run_id" (str "run") (
        field "status" (str "failed") (
          field "updates_json" (str "{\"finalize_reason\": \"late\"}")
            (field "now" (str "now") end))));
}

final_sent : finalize_run "db" "now" (str "run") (str "failed") (some "late") ≡ ok final_call
unfolding finalize_run transition_run required status encoded dumps escape
final_sent = refl

-- A run that is still active is not final.
active_refused :
    finalize_run "db" "now" (str "run") (str "active") none
    ≡ raise (builtin value_error "fala journal: invalid status")
unfolding finalize_run required status
active_refused = refl
