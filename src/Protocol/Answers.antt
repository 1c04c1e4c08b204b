-- ===== src/Protocol/Answers.antt =====
-- The dialogue: which results answer a request, and that a result built from a request does.
use fala.Prelude.{◌≡◌, refl, ◌↔◌, String, some, arith, eq_iff}
use fala.Python.Outcome.{ok}
use fala.Python.Value.{Value, Fields, dict}
use fala.Python.Json.{Platform}
use fala.Protocol.Message.{Request, Result, request, result, new_result, from_request}
use fala.Protocol.WellFormed.{IsRequest, IsResult, new_result-IsResult}
use fala.Protocol.Inversion.{new_result-fields}
use fala.Protocol.RoundTrip.{validate-to_message}
use fala.Protocol.Dialogue.{
  typed, validate, as_request, as_result, assert_same_contract, assert_answers, build_result,
}

module _ ⦃platform : Platform⦄ where
  as_request-typed : {r : Request} → IsRequest r → as_request (typed (request r)) ≡ ok r
  unfolding as_request validate
  as_request-typed {r} w = rw (validate-to_message (request r) (some "request") w refl)

  as_result-typed : {r : Result} → IsResult r → as_result (typed (result r)) ≡ ok r
  unfolding as_result validate
  as_result-typed {r} w = rw (validate-to_message (result r) (some "result") w refl)

  -- The six equations by which a result answers a request.
  pub record Answers (r : Request) (s : Result) : Type 0 where
    pub ref : s.ref ≡ r.id
    pub job : s.job ≡ r.job
    pub sender : s.sender ≡ r.recipient
    pub recipient : s.recipient ≡ r.sender
    pub contract_id : r.contract_id ≡ s.contract_id
    pub contract_version : r.contract_version ≡ s.contract_version

  assert_answers_sound :
      {r : Request} {s : Result}
      → IsRequest r
      → IsResult s
      → assert_answers (typed (request r)) (typed (result s)) ≡ ok tt
      → Answers r s
  unfolding assert_answers assert_same_contract
  assert_answers_sound {r} {s} w u h = ground (
    arith,
    as_request-typed w,
    as_result-typed u,
    eq_iff s.ref r.id,
    eq_iff s.job r.job,
    eq_iff s.sender r.recipient,
    eq_iff s.recipient r.sender,
    eq_iff r.contract_id s.contract_id,
    eq_iff r.contract_version s.contract_version,
  )

  assert_answers_complete :
      {r : Request} {s : Result}
      → IsRequest r
      → IsResult s
      → Answers r s
      → assert_answers (typed (request r)) (typed (result s)) ≡ ok tt
  unfolding assert_answers assert_same_contract
  assert_answers_complete {r} {s} w u a = ground (
    arith,
    as_request-typed w,
    as_result-typed u,
    eq_iff s.ref r.id,
    eq_iff s.job r.job,
    eq_iff s.sender r.recipient,
    eq_iff s.recipient r.sender,
    eq_iff r.contract_id s.contract_id,
    eq_iff r.contract_version s.contract_version,
  )

  -- For well-formed messages the check passes exactly when the result refers to the request by its
  -- id, repeats its job and its contract pair, and goes back from the recipient to the sender.
  pub assert_answers_iff :
      (r : Request) (s : Result)
      → IsRequest r
      → IsResult s
      → (assert_answers (typed (request r)) (typed (result s)) ≡ ok tt) ↔ Answers r s
  assert_answers_iff r s w u = (assert_answers_sound w u, assert_answers_complete w u)

  payload_given :
      (sender job ref : String) (payload : Value) (status recipient ci cv : String) {s : Result}
      → new_result sender job ref payload status recipient ci cv ≡ ok s
      → (p : Fields) × (payload ≡ dict p)
  unfolding new_result
  payload_given sender job ref (dict p) status recipient ci cv h = (p, refl)
  payload_given sender job ref _ status recipient ci cv h = absurd (ground arith)

  pub from_request-Answers :
      (r : Request) (payload : Value) (status : String) {s : Result}
      → from_request r payload status ≡ ok s
      → Answers r s
  unfolding from_request
  from_request-Answers r payload status h =
      let (p, e) =
        payload_given r.recipient r.job r.id payload status r.sender r.contract_id
          r.contract_version h in
      let made =
        new_result-fields r.recipient r.job r.id p status r.sender r.contract_id r.contract_version
          (rw e at h) in
      ground arith

  pub from_request-carries :
      (r : Request) (payload : Fields) (status : String) {s : Result}
      → from_request r (dict payload) status ≡ ok s
      → (s.payload ≡ payload) × (s.status ≡ status)
  unfolding from_request
  from_request-carries r payload status h =
      let made =
        new_result-fields r.recipient r.job r.id payload status r.sender r.contract_id
          r.contract_version h in
      (made.3, made.5)

  -- A result that is built from a well-formed request always passes the dialogue check: whenever
  -- the constructor returns, `build_result` returns the same result.
  pub build_result-from_request :
      (r : Request) (payload : Value) (status : String) {s : Result}
      → IsRequest r
      → from_request r payload status ≡ ok s
      → build_result (typed (request r)) payload status ≡ ok s
  unfolding build_result
  build_result-from_request r payload status {s} w h =
      let u : IsResult s =
        new_result-IsResult r.recipient r.job r.id payload status r.sender r.contract_id
          r.contract_version (unfold from_request in h) in
      let a = assert_answers_complete w u (from_request-Answers r payload status h) in
      ground (arith, as_request-typed w)
