-- ===== src/Conformance/Results.antt =====
-- python/fala/conformance.py: the checks of a whole answer, and the request of a test.
use fala.Prelude.{String, Option, none, some}
use fala.Python.Outcome.{Outcome, ok, ◌>>=◌, ◌>>◌}
use fala.Python.Value.{Value, Fields, str, dict}
use fala.Python.Json.{Platform}
use fala.Protocol.Message.{Request, Result, Message, request, result}
use fala.Protocol.Dialogue.{
  Spoken, typed, validate, only_result, assert_answers, contract_pair, contract_pair_of_text,
  request_message,
}
use fala.Conformance.Payload.{check_payload}

abbrev recipient_or : String → Option String → String
recipient_or job none = job
recipient_or job (some recipient) = recipient

module _ ⦃platform : Platform⦄ where
  -- `check_message`
  unfoldable pub check_message : Spoken → Option String → Outcome Message
  unfolding validate
  check_message = validate

  -- `check_answer`
  unfoldable pub check_answer : Spoken → Spoken → Outcome (Unit {0})
  unfolding assert_answers
  check_answer = assert_answers

  abbrev pub schema_under : Option Value → Fields → Outcome (Unit {0})
  schema_under none payload = ok tt
  schema_under (some schema) payload = check_payload (dict payload) schema "/payload"

  -- `check_result`
  unfoldable pub check_result : Spoken → Spoken → Option Value → Outcome Result
  check_result x y schema = do
    m ← validate y (some "result")
    s ← only_result m
    assert_answers x (typed (result s))
    schema_under schema s.payload
    ok s

  -- the contract pair of a schema, or of the text of one
  unfoldable pub pair_of : Value → Outcome (String × String)
  unfolding contract_pair contract_pair_of_text
  pair_of (str t) = contract_pair_of_text t
  pair_of schema = contract_pair schema

  -- `make_request`
  unfoldable pub make_request :
      (job : String) (payload schema : Value) (sender : String) (recipient : Option String)
      (config : Option Fields)
      → Outcome Request
  unfolding pair_of request_message
  make_request job payload schema sender recipient config = do
    pair ← pair_of schema
    request_message sender (recipient_or job recipient) job payload config pair.0 pair.1

  -- `exercise_handler`
  unfoldable pub exercise_handler :
      (Request → Outcome Result)
      → (payload schema : Value) (job : String) (config : Option Fields) → Outcome Result
  exercise_handler handler payload schema job config = do
    r ← make_request job payload schema "parent" none config
    s ← handler r
    check_result (typed (request r)) (typed (result s)) (some schema)
