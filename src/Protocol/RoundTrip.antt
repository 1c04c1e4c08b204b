-- ===== src/Protocol/RoundTrip.antt =====
-- What is spoken is understood: a well-formed message passes its own validation unchanged.
use fala.Prelude.{◌≡◌, String, false, Option, some, arith, eq_refl}
use fala.Python.Outcome.{ok}
use fala.Python.Value.{str, dict}
use fala.Python.Json.{Platform}
use fala.Protocol.Message.{
  Request, Result, Message, request, result, kind_of, request_to_message, result_to_message,
  new_request, new_result, request_fields, result_fields,
}
use fala.Protocol.Wire.{
  validate_message, unexpected, wire_kind, wire_envelope, wire_request, wire_result, require_text,
  require_object,
}
use fala.Protocol.WellFormed.{IsRequest, IsResult, message_id-truthy, contract_fields}

module _ ⦃platform : Platform⦄ where
  new_request-id :
      {r : Request}
      → IsRequest r
      → new_request r.sender r.recipient r.job
          (dict r.payload)
          (dict r.config)
          r.contract_id
          r.contract_version
        ≡ ok r
  unfolding new_request
  new_request-id w = ground arith

  request_round_trip :
      {r : Request} (expected : Option String)
      → IsRequest r
      → unexpected expected (some (str "request")) ≡ false
      → validate_message (request r) expected ≡ ok (request r)
  unfolding validate_message request_to_message wire_kind wire_envelope wire_request require_text
      require_object
  request_round_trip {r} expected w e = ground (
    arith,
    eq_refl r.id,
    new_request-id w,
    message_id-truthy
        (request_fields r.sender r.recipient r.job r.payload r.config
          (contract_fields r.contract_id r.contract_version))
        r.id w.digest,
  )

  new_result-id :
      {r : Result}
      → IsResult r
      → new_result r.sender r.job r.ref
          (dict r.payload)
          r.status
          r.recipient
          r.contract_id
          r.contract_version
        ≡ ok r
  unfolding new_result
  new_result-id w = ground arith

  result_round_trip :
      {r : Result} (expected : Option String)
      → IsResult r
      → unexpected expected (some (str "result")) ≡ false
      → validate_message (result r) expected ≡ ok (result r)
  unfolding validate_message result_to_message wire_kind wire_envelope wire_result require_text
      require_object
  result_round_trip {r} expected w e = ground (
    arith,
    eq_refl r.id,
    new_result-id w,
    message_id-truthy
        (result_fields r.sender r.recipient r.job r.ref r.status r.payload
          (contract_fields r.contract_id r.contract_version))
        r.id w.digest,
  )

  -- What a message must satisfy, whichever its kind.
  abbrev pub IsMessage : Message → Type 0
  IsMessage (request r) = IsRequest r
  IsMessage (result r) = IsResult r

  -- A message that keeps the invariant of its kind passes its own validation, under no expectation
  -- or under that of its kind, and comes back unchanged.
  pub validate-to_message :
      (m : Message) (expected : Option String)
      → IsMessage m
      → unexpected expected (some (str (kind_of m))) ≡ false
      → validate_message m expected ≡ ok m
  validate-to_message (request r) expected w e = request_round_trip expected w e
  validate-to_message (result r) expected w e = result_round_trip expected w e
