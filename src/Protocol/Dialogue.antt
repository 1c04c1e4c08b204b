-- ===== src/Protocol/Dialogue.antt =====
-- python/fala/protocol.py: which result answers which request, the constructors that a child and a
-- parent call, and `speak`.
use fala.Prelude.{String, ◌<>◌, Bool, not, ◌||◌, Option, none, some, ◌==◌}
use fala.Python.Outcome.{
  Outcome, ok, raise, raise_if, protocol_error, builtin, type_error, value_error, ◌>>=◌, ◌>>◌,
}
use fala.Python.Value.{Value, Fields, dict, end}
use fala.Python.Json.{Platform, compact, dumps}
use fala.Protocol.Message.{
  Request, Result, Message, request, result, kind_of, to_message, canonical, new_request,
  new_result, from_request,
}
use fala.Protocol.Wire.{validated_wire, validate_message, parse}

-- What the functions below are given: `Mapping | Request | Result | str`.
pub data Spoken : Type 0 where
  wire : Fields → Spoken
  typed : Message → Spoken
  text : String → Spoken

abbrev pub optional_dict : Option Fields → Value
optional_dict none = dict end
optional_dict (some fs) = dict fs

module _ ⦃platform : Platform⦄ where
  -- `request_message`: the config may be left out
  unfoldable pub request_message :
      (sender recipient job : String) (payload : Value) (config : Option Fields)
      (contract_id contract_version : String)
      → Outcome Request
  unfolding new_request
  request_message sender recipient job payload config contract_id contract_version =
      new_request sender recipient job payload (optional_dict config) contract_id contract_version

  -- `result_message`
  unfoldable pub result_message :
      (sender job ref : String) (payload : Value) (status recipient : String)
      (contract_id contract_version : String)
      → Outcome Result
  unfolding new_result
  result_message = new_result

  -- `parse(x, kind) if isinstance(x, str) else validate(x, kind)`
  unfoldable pub validate : Spoken → Option String → Outcome Message
  validate (wire value) expected = validated_wire value expected
  validate (typed m) expected = validate_message m expected
  validate (text t) expected = parse t expected

  abbrev pub only_request : Message → Outcome Request
  only_request (request r) = ok r
  only_request (result _) = raise (protocol_error "fep.unexpected_message_kind" "/kind")

  abbrev pub only_result : Message → Outcome Result
  only_result (result r) = ok r
  only_result (request _) = raise (protocol_error "fep.unexpected_message_kind" "/kind")

  unfoldable pub as_request : Spoken → Outcome Request
  as_request x = do m ← validate x (some "request"); only_request m

  unfoldable pub as_result : Spoken → Outcome Result
  as_result x = do m ← validate x (some "result"); only_result m

  unfoldable pub assert_same_contract : Spoken → Spoken → Outcome (Unit {0})
  assert_same_contract x y = do
    r ← as_request x
    s ← as_result y
    raise_if
        (not (r.contract_id == s.contract_id) || not (r.contract_version == s.contract_version))
        (protocol_error "fep.contract_mismatch" "/contract_id")

  unfoldable pub assert_answers : Spoken → Spoken → Outcome (Unit {0})
  assert_answers x y = do
    r ← as_request x
    s ← as_result y
    raise_if (not (s.ref == r.id)) (protocol_error "fep.ref_mismatch" "/ref")
    raise_if (not (s.job == r.job)) (protocol_error "fep.job_mismatch" "/job")
    raise_if (not (s.sender == r.recipient)) (protocol_error "fep.direction_mismatch" "/from")
    raise_if (not (s.recipient == r.sender)) (protocol_error "fep.direction_mismatch" "/to")
    assert_same_contract (typed (request r)) (typed (result s))

  unfoldable pub build_result : Spoken → Value → String → Outcome Result
  build_result x payload status = do
    r ← as_request x
    s ← from_request r payload status
    assert_answers (typed (request r)) (typed (result s))
    ok s

  abbrev same_type : Message → Message → Bool
  same_type a b = kind_of a == kind_of b

  unfoldable pub speak : Spoken → Option String → Outcome Message
  speak (text t) expected = parse t expected
  speak (wire _) expected = raise (builtin type_error "fala.speak accepts only Request or Result")
  speak (typed m) expected = do
    value ← to_message m
    t ← canonical value
    parsed ← parse t expected
    raise_if (not (same_type parsed m)) (protocol_error "fep.unexpected_message_kind" "/kind")
    ok parsed

  -- `contract_pair_from_schema`, of a schema and of its text
  unfoldable pub contract_pair : Value → Outcome (String × String)
  contract_pair schema = do
    t ← dumps compact schema
    ok ("schema:sha256:" <> platform.sha256_hex t, "1")

  unfoldable pub contract_pair_of_text : String → Outcome (String × String)
  unfolding contract_pair
  contract_pair_of_text t = elim (platform.loads t) [
    | none ↦ raise (builtin value_error "")
    | some schema ↦ contract_pair schema
  ]
