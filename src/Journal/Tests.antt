-- ===== src/Journal/Tests.antt =====
-- A journal with one run and one process, read on a platform that reads every text as {}.
use fala.Prelude.{◌≡◌, refl, ◌↔◌, ◌==◌, none, some, [], ◌∷◌, if◌then◌else◌}
use fala.Prelude.Int.{pos}
use fala.Python.Outcome.{ok}
use fala.Python.Value.{Fields, str, dict, end, field}
use fala.Python.Json.{Platform, dumps, escape}
use fala.Inspection.Rows.{Cell, null, integer}
use fala.Inspection.Leases.{rows}
use fala.Journal.Records.{Record, run_columns, safe_cell, read_record}
use fala.Journal.Reads.{
  Journal, opened, read_limit, open_journal, take, where_equals, read_all, read_bounded,
  required_run_id, list_runs, list_processes,
}
use fala.Journal.Limits.{IsWithin, IsVersionSix, list_runs_iff}

instance abbrev empty_platform : Platform
empty_platform = record {
  sha256_hex = λ s. s;
  float_repr = λ x. "0.0";
  int_of_text = λ s. none;
  strip = λ s. s;
  upper = λ s. s;
  text_of = λ v. "?";
  loads = λ s. some (dict end);
}

abbrev run_row : Record
run_row column =
    if column == "id"
    then Cell.text "run"
    else if column == "status"
    then Cell.text "active"
    else if column == "schema_version"
    then integer (pos 6)
    else if column == "metadata"
    then Cell.text "{}"
    else null

abbrev process_row : Record
process_row column =
    if column == "run_id"
    then Cell.text "run"
    else if column == "id"
    then Cell.text "process"
    else if column == "status"
    then Cell.text "pending"
    else Cell.text "{}"

abbrev journal : Journal
journal = record {
  user_version = some (integer (pos 6));
  migration = some (integer (pos 6));
  runs = run_row ∷ [];
  processes = process_row ∷ [];
}

run_row_status :
    read_record ("id" ∷ "status" ∷ []) run_row
    ≡ ok (field "id" (str "run") (field "status" (str "active") end))
unfolding read_record safe_cell dumps escape
run_row_status = refl

abbrev process_read : Fields
process_read = field "run_id" (str "run") (
    field "id" (str "process") (
      field "process_type" (str "{}") (
        field "impulse_id" (str "{}") (
          field "status" (str "pending") (
            field "priority" (str "{}") (
              field "attempt" (str "{}") (
                field "max_attempts" (str "{}") (
                  field "available_at" (str "{}") (
                    field "lease_owner" (str "{}") (
                      field "lease_expires_at" (str "{}") (
                        field "metadata" (dict end) (
                          field "created_at" (str "{}") (
                            field "updated_at" (str "{}") (
                              field "started_at" (str "{}") (
                                field "finished_at" (str "{}") (
                                  field "input" (dict end) (
                                    field "output" (dict end) (
                                      field "error" (dict end)
                                        (field "output_schema" (dict end) end)))))))))))))))))))

processes_read : list_processes (opened journal) (str "run") (rows (pos 5)) ≡ ok (process_read ∷ [])
unfolding list_processes required_run_id read_limit open_journal read_bounded take where_equals
    read_all read_record safe_cell dumps escape
processes_read = refl

list_runs_iff_example :
    (list_runs (opened journal) (rows (pos 1)) ≡ ok [])
    ↔ (IsWithin 1 journal.runs × IsVersionSix journal × (read_all run_columns journal.runs ≡ ok []))
list_runs_iff_example = list_runs_iff journal 1 []
