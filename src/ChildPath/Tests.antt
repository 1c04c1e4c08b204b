-- ===== src/ChildPath/Tests.antt =====
-- A parent that asks for a child path, and a native engine that replies with one terminal.
use fala.Prelude.{String, ◌≡◌, refl, true, false, none, some, [], ◌∷◌, if◌then◌else◌, ◌==◌}
use fala.Python.Outcome.{Outcome, ok}
use fala.Python.Value.{Fields, str, dict, end, field}
use fala.Python.Json.{Platform, dumps, escape}
use fala.Python.Text.{decimal}
use fala.Protocol.Message.{
  Result, contract_body, new_request, new_result, from_request, message_id, canonical,
  request_to_message, result_to_message,
}
use fala.Protocol.Wire.{
  validated_wire, wire_kind, wire_envelope, wire_request, wire_result, require_text, require_object,
  keys_outside, validate_message, parse,
}
use fala.Protocol.Dialogue.{
  speak, validate, as_request, as_result, assert_answers, assert_same_contract, build_result,
}
use fala.Protocol.Answers.{Answers}
use fala.Sdk.Effector.{Written, load_manifest, write_result}
use fala.Sdk.Inputs.{input_values}
use fala.Sdk.Written.{IsAcceptedResult, IsSpokenOf}
use fala.Host.Directory.{enter, leave, with_sqlite_cwd}
use fala.Host.Calls.{Native}
use fala.Host.Package.{
  Site, Hall, host_run_package, execution_turn, process_host_library, package_request,
}
use fala.ChildPath.Plan.{Plan, value_at, plan_child, child_payload, report}
use fala.ChildPath.Driven.{main}
use fala.ChildPath.Linked.{main_zero}

abbrev asked_wire : Fields
asked_wire = field "protocol" (str "fala") (
    field "kind" (str "request") (
      field "id" (str "msg:sha256:0") (
        field "from" (str "parent") (
          field "to" (str "child") (
            field "job" (str "review") (
              field "payload" (dict (field "text" (str "hi") end)) (
                field "config" (dict end)
                  (field "contract_id" (str "c") (field "contract_version" (str "1") end)))))))))

abbrev spoken_wire : Fields
spoken_wire = field "protocol" (str "fala") (
    field "kind" (str "result") (
      field "id" (str "msg:sha256:0") (
        field "from" (str "child") (
          field "to" (str "parent") (
            field "job" (str "review") (
              field "ref" (str "msg:sha256:0") (
                field "status" (str "ok") (
                  field "payload" (dict end)
                    (field "contract_id" (str "c") (field "contract_version" (str "1") end))))))))))

abbrev spec : Fields
spec = field "journal_root" (str "/journals") (
    field "input_mapping" (dict (field "body" (str "text") end)) (
      field "package_ref" (str "p.toml") (
        field "path_id" (str "path") (
          field "terminal_mapping" (dict (field "done" (str "ok") end))
            (field "retention" (str "delete_on_success") end)))))

abbrev platform : Platform
platform = record {
  sha256_hex = λ s. "0";
  float_repr = λ x. "0.0";
  int_of_text = λ s. none;
  strip = λ s. s;
  upper = λ s. s;
  text_of = λ v. "?";
  loads = λ s.
      if s == "spec"
      then some (dict spec)
      else if s == "manifest"
      then some (dict asked_wire)
      else some (dict spoken_wire);
}

abbrev reply : Fields
reply =
    field "path_result"
      (dict (
        field "terminal" (str "done")
          (field "values" (dict (field "verdict" (str "good") end)) end)))
      end

abbrev engine : Native
engine payload p = (ok (dict reply), p)

abbrev site : Site
site = record {
  is_file = λ path. path == "p.toml";
  is_absolute = λ path. true;
  resolve = λ path. path;
  built_host = ok "/lib/host.so";
  ready = ok tt;
  place = record { sqlite_cwd = "/vendor"; is_dir = false; fresh_root = "/tmp/root" };
  encode = λ fs. ok "{}";
  is_posix = true;
  now = "2026-01-01T00:00:00Z";
  executable = "python3";
  child_runner = "child_path.py";
  pythonpath = "python";
  python_library = "";
  fala_home = "/fala";
}

abbrev hall : Hall
hall = (
  record {
    cwd = "/home";
    environ =
        ("FALA_CHILD_PATH_SPEC", "spec")
        ∷ ("FALA_PARENT_DB", "/parent.sqlite")
        ∷ ("FALA_PARENT_RUN_ID", "r")
        ∷ ("FALA_PARENT_PROCESS_ID", "p")
        ∷ ("FALA_EFFECTOR_MANIFEST", "manifest.json")
        ∷ ("FALA_EFFECTOR_OUTPUT_DIR", "out")
        ∷ [];
    roots = [];
  },
  [],
)

abbrev read_manifest : String → Outcome String
read_manifest path = ok "manifest"

child_ended : (main ⦃platform = platform⦄ site engine read_manifest hall).0.status ≡ 0
unfolding main plan_child value_at child_payload report host_run_package execution_turn
    process_host_library package_request with_sqlite_cwd enter leave input_values validate parse
    wire_kind wire_envelope require_text require_object wire_request wire_result message_id
    canonical dumps escape decimal new_request new_result as_request as_result validate_message
    request_to_message result_to_message from_request assert_answers assert_same_contract
    build_result speak contract_body keys_outside validated_wire load_manifest write_result
child_ended = refl

main_zero_example :
    (plan : Plan) × (answer : Fields) × (w : Written) × (r : Result) × (payload : Fields)
    × (plan_child ⦃platform = platform⦄ site.resolve hall.0.environ read_manifest ≡ ok plan)
    × ((plan.child_db == plan.parent_db) ≡ false)
    × ((host_run_package ⦃platform = platform⦄ site engine plan.order hall).0 ≡ ok answer)
    × (child_payload ⦃platform = platform⦄ plan answer ≡ ok payload)
    × Answers ⦃platform = platform⦄ plan.manifest r
    × (r.payload ≡ payload)
    × (r.status ≡ "ok")
    × IsSpokenOf ⦃platform = platform⦄ r w.document
    × ((main ⦃platform = platform⦄ site engine read_manifest hall).0.output ≡ some w)
    × IsAcceptedResult ⦃platform = platform⦄ w.document
main_zero_example = main_zero ⦃platform = platform⦄ site engine read_manifest hall child_ended
