-- ===== src/Sdk/Tests.antt =====
-- A manifest with a regulator's key in its input, and three reactions of two kinds.
use fala.Prelude.{◌≡◌, refl, String, ◌==◌, none, some, [], ◌∷◌, if◌then◌else◌}
use fala.Python.Value.{Fields, str, dict, end, field}
use fala.Sdk.Inputs.{Manifest, wire, declared_inputs}
use fala.Python.Outcome.{Outcome, ok}
use fala.Python.Json.{Platform, dumps, escape}
use fala.Python.Text.{decimal}
use fala.Protocol.Message.{
  Request, Result, Message, contract_body, new_request, new_result, from_request, message_id,
  canonical, request_to_message, result_to_message,
}
use fala.Protocol.Wire.{
  validated_wire, wire_kind, wire_envelope, wire_request, wire_result, require_text, require_object,
  keys_outside, validate_message, parse,
}
use fala.Protocol.Dialogue.{
  typed, speak, validate, as_request, as_result, assert_answers, assert_same_contract, build_result,
}
use fala.Sdk.Effector.{
  Environment, Written, load_manifest, write_result, output, run_manifest_effector,
}
use fala.Sdk.Written.{IsAcceptedResult, run_manifest_effector-accepted}

abbrev manifest : Manifest
manifest = wire (
    dict (field "payload" (dict (field "text" (str "hi") (field "regulation" (dict end) end))) end))

abbrev reaction : String → String → Fields
reaction kind value = field "kind" (str kind) (field "value" (str value) end)

text_declared : declared_inputs manifest ≡ field "text" (str "hi") end
unfolding declared_inputs
text_declared = refl

-- A platform that reads two texts, "manifest" and the answer that the effector below speaks. Every
-- digest is 0.
abbrev manifest_wire : Fields
manifest_wire = field "protocol" (str "fala") (
    field "kind" (str "request") (
      field "id" (str "msg:sha256:0") (
        field "from" (str "parent") (
          field "to" (str "echo") (
            field "job" (str "echo") (
              field "payload" (dict end) (
                field "config" (dict end)
                  (field "contract_id" (str "c") (field "contract_version" (str "1") end)))))))))

abbrev answer_wire : Fields
answer_wire = field "protocol" (str "fala") (
    field "kind" (str "result") (
      field "id" (str "msg:sha256:0") (
        field "from" (str "echo") (
          field "to" (str "parent") (
            field "job" (str "echo") (
              field "ref" (str "msg:sha256:0") (
                field "status" (str "ok") (
                  field "payload" (dict end)
                    (field "contract_id" (str "c") (field "contract_version" (str "1") end))))))))))

abbrev reading_platform : Platform
reading_platform = record {
  sha256_hex = λ s. "0";
  float_repr = λ x. "0.0";
  int_of_text = λ s. none;
  strip = λ s. s;
  upper = λ s. s;
  text_of = λ v. "?";
  loads = λ s. if s == "manifest" then some (dict manifest_wire) else some (dict answer_wire);
}

abbrev environment : Environment
environment = ("FALA_EFFECTOR_MANIFEST", "manifest.json") ∷ ("FALA_EFFECTOR_OUTPUT_DIR", "out") ∷ []

abbrev acknowledge : Request → Outcome Result
acknowledge r = output ⦃platform = reading_platform⦄ (typed (Message.request r)) (dict end) "ok"

abbrev read_manifest : String → Outcome String
read_manifest path = ok "manifest"

acknowledged :
    (run_manifest_effector ⦃platform = reading_platform⦄ environment read_manifest
      acknowledge).status
    ≡ 0
unfolding run_manifest_effector validate parse wire_kind wire_envelope require_text require_object
    wire_request wire_result message_id canonical dumps escape decimal new_request new_result output
    as_request as_result validate_message request_to_message result_to_message from_request
    assert_answers assert_same_contract build_result speak contract_body keys_outside validated_wire
    load_manifest write_result
acknowledged = refl

run_manifest_effector-accepted_example :
    (asked : Request) × (r : Result) × (w : Written) × (load_manifest ⦃platform = reading_platform⦄
        environment read_manifest
      ≡ ok asked)
    × (acknowledge asked ≡ ok r)
    × ((run_manifest_effector ⦃platform = reading_platform⦄ environment read_manifest
          acknowledge).output
        ≡ some w)
    × IsAcceptedResult ⦃platform = reading_platform⦄ w.document
run_manifest_effector-accepted_example =
    run_manifest_effector-accepted ⦃platform = reading_platform⦄ environment read_manifest
      acknowledge acknowledged
