-- ===== src/Protocol/Tests.antt =====
-- One dialogue: a request to echo a text, and its answer, on a platform whose digest of a text is the
-- text. The properties of the protocol are applied to it.
use fala.Prelude.{arith, ◌≡◌, refl, ◌↔◌, false, none, some}
use fala.Python.Outcome.{ok, raise, protocol_error}
use fala.Python.Value.{Value, Fields, str, dict, end, field, get, put}
use fala.Python.Json.{escape, dumps}
use fala.Python.Tests.{echo_platform}
use text.Mathlib.TextEquality.{eq_iff}
use fala.Python.Reordered.{Reordered, in_dict, then_so, swapped, fields, no_fields, same}
use fala.Protocol.Identity.{request_id, new_request-Reordered}
use fala.Protocol.Message.{
  Request, Result, request, result, canonical, message_id, new_request, from_request,
  request_to_message,
}
use fala.Protocol.Wire.{
  validate_message, validated_wire, unexpected, wire_kind, wire_envelope, wire_request, wire_result,
  require_text, require_object,
}
use fala.Protocol.WellFormed.{IsRequest, IsResult}
use fala.Protocol.RoundTrip.{IsMessage, validate-to_message}
use fala.Protocol.Exact.{validated_wire-IsMessage, validated_wire-exact}
use fala.Protocol.Dialogue.{typed, assert_answers}
use fala.Protocol.Answers.{Answers, assert_answers_iff}

abbrev pub asked : Request
asked = record {
  sender = "parent";
  recipient = "echo";
  job = "echo";
  payload = field "text" (str "hi") end;
  config = end;
  contract_id = "c";
  contract_version = "1";
  id =
      "msg:sha256:{\"config\":{},\"contract_id\":\"c\",\"contract_version\":\"1\",\"from\":\"parent\",\"job\":\"echo\",\"kind\":\"request\",\"payload\":{\"text\":\"hi\"},\"protocol\":\"fala\",\"to\":\"echo\"}";
}

abbrev pub answered : Result
answered = record {
  sender = "echo";
  job = "echo";
  ref =
      "msg:sha256:{\"config\":{},\"contract_id\":\"c\",\"contract_version\":\"1\",\"from\":\"parent\",\"job\":\"echo\",\"kind\":\"request\",\"payload\":{\"text\":\"hi\"},\"protocol\":\"fala\",\"to\":\"echo\"}";
  payload = field "text" (str "hi") end;
  status = "ok";
  recipient = "parent";
  contract_id = "c";
  contract_version = "1";
  id =
      "msg:sha256:{\"contract_id\":\"c\",\"contract_version\":\"1\",\"from\":\"echo\",\"job\":\"echo\",\"kind\":\"result\",\"payload\":{\"text\":\"hi\"},\"protocol\":\"fala\",\"ref\":\"msg:sha256:{\\\"config\\\":{},\\\"contract_id\\\":\\\"c\\\",\\\"contract_version\\\":\\\"1\\\",\\\"from\\\":\\\"parent\\\",\\\"job\\\":\\\"echo\\\",\\\"kind\\\":\\\"request\\\",\\\"payload\\\":{\\\"text\\\":\\\"hi\\\"},\\\"protocol\\\":\\\"fala\\\",\\\"to\\\":\\\"echo\\\"}\",\"status\":\"ok\",\"to\":\"parent\"}";
}

asked_made :
    new_request "parent" "echo" "echo" (dict (field "text" (str "hi") end)) (dict end) "c" "1"
    ≡ ok asked
unfolding new_request message_id canonical dumps escape
asked_made = refl

pub asked-IsRequest : IsRequest asked
unfolding message_id canonical dumps escape
asked-IsRequest = record {
  sender_named = refl;
  recipient_named = refl;
  job_named = refl;
  contract_named = refl;
  version_named = refl;
  digest = refl;
}

answered_made : from_request asked (dict (field "text" (str "hi") end)) "ok" ≡ ok answered
unfolding from_request message_id canonical dumps escape
answered_made = refl

pub answered-IsResult : IsResult answered
unfolding message_id canonical dumps escape
answered-IsResult = record {
  sender_named = refl;
  recipient_named = refl;
  job_named = refl;
  ref_named = refl;
  status_known = refl;
  contract_named = refl;
  version_named = refl;
  digest = refl;
}

-- The wire form of the request, with its keys in the order of the code.
abbrev asked_wire : Fields
asked_wire = field "protocol" (str "fala") (
    field "kind" (str "request") (
      field "from" (str "parent") (
        field "to" (str "echo") (
          field "job" (str "echo") (
            field "payload" (dict (field "text" (str "hi") end)) (
              field "config" (dict end) (
                field "contract_id" (str "c")
                  (field "contract_version" (str "1") (field "id" (str asked.id) end)))))))))

-- The same document with its first and last key exchanged.
abbrev asked_reordered : Fields
asked_reordered = field "id" (str asked.id) (
    field "kind" (str "request") (
      field "from" (str "parent") (
        field "to" (str "echo") (
          field "job" (str "echo") (
            field "payload" (dict (field "text" (str "hi") end)) (
              field "config" (dict end) (
                field "contract_id" (str "c")
                  (field "contract_version" (str "1") (field "protocol" (str "fala") end)))))))))

reordered_accepted : validated_wire asked_reordered (some "request") ≡ ok (request asked)
unfolding validated_wire wire_kind wire_envelope wire_request wire_result require_text
    require_object new_request message_id canonical dumps escape
reordered_accepted = refl

asked_to_message : request_to_message asked ≡ ok asked_wire
unfolding request_to_message
asked_to_message = refl

tampered_refused :
    validated_wire (put "job" (str "other") asked_wire) none
    ≡ raise (protocol_error "fep.digest_mismatch" "/id")
unfolding validated_wire wire_kind wire_envelope wire_request wire_result require_text
    require_object new_request message_id canonical dumps escape
tampered_refused = refl

validate-to_message_example : validate_message (request asked) (some "request") ≡ ok (request asked)
validate-to_message_example =
    validate-to_message (request asked) (some "request") asked-IsRequest refl

validated_wire-IsMessage_example :
    IsMessage (request asked) × (unexpected (some "request") (some (str "request")) ≡ false)
validated_wire-IsMessage_example =
    validated_wire-IsMessage asked_reordered (some "request") (request asked) reordered_accepted

validated_wire-exact_example : get "job" asked_reordered ≡ get "job" asked_wire
validated_wire-exact_example =
    validated_wire-exact asked_reordered (some "request") (request asked) "job" reordered_accepted
      asked_to_message

assert_answers_iff_example :
    (assert_answers (typed (request asked)) (typed (result answered)) ≡ ok tt)
    ↔ Answers asked answered
assert_answers_iff_example = assert_answers_iff asked answered asked-IsRequest answered-IsResult

-- {"meta": {"a": "1", "b": "2"}, "text": "hi"}, and the same with the keys of both dicts exchanged
abbrev noted : Value
noted = dict (
    field "meta" (dict (field "a" (str "1") (field "b" (str "2") end)))
      (field "text" (str "hi") end))

abbrev renoted : Value
renoted = dict (
    field "text" (str "hi")
      (field "meta" (dict (field "b" (str "2") (field "a" (str "1") end))) end))

noted-Reordered : Reordered noted renoted
noted-Reordered = in_dict (
    then_so (fields (in_dict (swapped (ground (arith, eq_iff "a" "b")))) (fields same no_fields))
      (swapped (ground (arith, eq_iff "meta" "text"))))

new_request-Reordered_example :
    request_id (new_request "parent" "echo" "echo" noted (dict end) "c" "1")
    ≡ request_id (new_request "parent" "echo" "echo" renoted (dict end) "c" "1")
new_request-Reordered_example =
    new_request-Reordered "parent" "echo" "echo" "c" "1" noted renoted (dict end) (dict end)
      noted-Reordered same
