-- ===== src/Protocol/Exact.antt =====
-- What is accepted was exactly spoken: a wire document that passes validation has the fields of the
-- typed message that it is read as, each with its value, and no other.
use fala.Prelude.{
  ◌≡◌, refl, sym, ◌∙◌, String, List, [], ◌∷◌, ◌==◌, true, false, Option, none, some, ◌⊎◌, inl, inr,
  arith, eq_iff, is_in, if◌then◌else◌, Bool-cases,
}
use fala.Python.Outcome.{ok, ◌>>=◌, invert}
use fala.Python.Value.{Fields, str, end, field, get}
use fala.Python.Json.{Platform}
use fala.Protocol.Message.{
  Request, Result, Message, request, result, kind_of, to_message, request_to_message,
  result_to_message, request_fields, result_fields, spread,
}
use fala.Protocol.WellFormed.{IsRequest, IsResult, contract_fields}
use fala.Protocol.Wire.{
  request_keys, result_keys, is_text, validated_wire, unexpected, wire_kind, wire_envelope,
  wire_request, wire_result, Envelope,
}
use fala.Protocol.RoundTrip.{IsMessage}
use fala.Protocol.Inversion.{
  is_text-eq, wire_kind-Opened, wire_kind-closed, EnvelopeOf, wire_envelope-EnvelopeOf, RequestOf,
  wire_request-RequestOf, ResultOf, wire_result-ResultOf,
}

result_kind :
    (v : Fields)
    → (get "kind" v ≡ some (str "request")) ⊎ (get "kind" v ≡ some (str "result"))
    → is_text "request" (get "kind" v) ≡ false
    → get "kind" v ≡ some (str "result")
result_kind v (inl e) b = absurd (cc (rw e at b))
result_kind v (inr e) b = e

-- Two documents agree on each of some keys.
abbrev Agree : Fields → Fields → List String → Type 0
Agree v w [] = Unit
Agree v w (a ∷ rest) = (get a v ≡ get a w) × Agree v w rest

Agree-everywhere :
    (v w : Fields) (k : String) (allowed : List String)
    → Agree v w allowed
    → (is_in k allowed ≡ false → get k v ≡ get k w)
    → get k v ≡ get k w
Agree-everywhere v w k [] h else_absent = else_absent refl
Agree-everywhere v w k (a ∷ keys) (here, rest) else_absent = elim (Bool-cases (k == a)) [
  | inl same ↦ rw ((eq_iff k a).0 same) here
  | inr other ↦ Agree-everywhere v w k keys rest (λ o. else_absent (rw other o))
]

module _ ⦃platform : Platform⦄ where
  -- The second half of a validation that returned: the reading of the kind that was found.
  abbrev Reading : Fields → Envelope → Message → Type 0
  Reading v e (request r) = (is_text "request" (get "kind" v) ≡ true) × RequestOf v e r
  Reading v e (result r) = (is_text "request" (get "kind" v) ≡ false) × ResultOf v e r

  read-Reading :
      (v : Fields) (e : Envelope) (m : Message)
      → (if is_text "request" (get "kind" v)
          then (wire_request v e >>= λ r. ok (request r))
          else (wire_result v e >>= λ r. ok (result r)))
        ≡ ok m
      → Reading v e m
  read-Reading v e (request r) h = elim (Bool-cases (is_text "request" (get "kind" v))) [
    | inl p ↦
        invert (wire_request v e) _ (rw p at h)
          λ r' q s. (p, wire_request-RequestOf v e (cc (q, s)))
    | inr p ↦ invert (wire_result v e) _ (rw p at h) λ r' q s. absurd (cc s)
  ]
  read-Reading v e (result r) h = elim (Bool-cases (is_text "request" (get "kind" v))) [
    | inl p ↦ invert (wire_request v e) _ (rw p at h) λ r' q s. absurd (cc s)
    | inr p ↦
        invert (wire_result v e) _ (rw p at h) λ r' q s. (p, wire_result-ResultOf v e (cc (q, s)))
  ]

  abbrev Accepted : Fields → Option String → Message → Type 0
  Accepted v expected m =
      (wire_kind v expected ≡ ok tt) × ((e : Envelope) × EnvelopeOf v e × Reading v e m)

  validated_wire-Accepted :
      (v : Fields) (expected : Option String) (m : Message)
      → validated_wire v expected ≡ ok m
      → Accepted v expected m
  unfolding validated_wire
  validated_wire-Accepted v expected m h = invert (wire_kind v expected) _ h λ _ p h₁.
      invert (wire_envelope v) _ h₁
        λ e q h₂. (p, (e, wire_envelope-EnvelopeOf v q, read-Reading v e m h₂))

  -- A document is accepted only as a message that keeps the invariant of its kind, and of the kind
  -- that was expected.
  pub validated_wire-IsMessage :
      (v : Fields) (expected : Option String) (m : Message)
      → validated_wire v expected ≡ ok m
      → IsMessage m × (unexpected expected (some (str (kind_of m))) ≡ false)
  validated_wire-IsMessage v expected (request r) h =
      let (p, (e, _, (k, of))) = validated_wire-Accepted v expected (request r) h in
      let opened = wire_kind-Opened v expected p in
      (of.formed, rw (is_text-eq "request" (get "kind" v) k) at opened.expected_kind)
  validated_wire-IsMessage v expected (result r) h =
      let (p, (e, _, (k, of))) = validated_wire-Accepted v expected (result r) h in
      let opened = wire_kind-Opened v expected p in
      (of.formed, rw (result_kind v opened.kind k) at opened.expected_kind)

  abbrev wire_form_request : Request → Fields
  wire_form_request r =
      request_fields r.sender r.recipient r.job r.payload r.config
        (spread (contract_fields r.contract_id r.contract_version) (field "id" (str r.id) end))

  abbrev wire_form_result : Result → Fields
  wire_form_result r =
      result_fields r.sender r.recipient r.job r.ref r.status r.payload
        (spread (contract_fields r.contract_id r.contract_version) (field "id" (str r.id) end))

  -- `to_message` does not raise on a well-formed message.
  pub request_to_message-eq :
      {r : Request} → IsRequest r → request_to_message r ≡ ok (wire_form_request r)
  unfolding request_to_message
  request_to_message-eq w = ground arith

  pub result_to_message-eq :
      {r : Result} → IsResult r → result_to_message r ≡ ok (wire_form_result r)
  unfolding result_to_message
  result_to_message-eq w = ground arith

  absent_request :
      (r : Request) (k : String) → is_in k request_keys ≡ false → get k (wire_form_request r) ≡ none
  absent_request r k h = ground arith

  absent_result :
      (r : Result) (k : String) → is_in k result_keys ≡ false → get k (wire_form_result r) ≡ none
  absent_result r k h = ground arith

  request_spelled :
      (v : Fields) (expected : Option String) (r : Request) (k : String)
      → Accepted v expected (request r)
      → get k v ≡ get k (wire_form_request r)
  request_spelled v expected r k (p, (e, env, (b, of))) =
      let opened = wire_kind-Opened v expected p in
      Agree-everywhere v (wire_form_request r) k request_keys
        (
          opened.protocol,
          (
            is_text-eq "request" (get "kind" v) b,
            (cc, (cc, (cc, (cc, (cc, (cc, (cc, (cc, tt)))))))),
          ),
        )
        (λ o. wire_kind-closed v expected request_keys k p (rw b) o ∙ sym (absent_request r k o))

  result_spelled :
      (v : Fields) (expected : Option String) (r : Result) (k : String)
      → Accepted v expected (result r)
      → get k v ≡ get k (wire_form_result r)
  result_spelled v expected r k (p, (e, env, (b, of))) =
      let opened = wire_kind-Opened v expected p in
      Agree-everywhere v (wire_form_result r) k result_keys
        (
          opened.protocol,
          (result_kind v opened.kind b, (cc, (cc, (cc, (cc, (cc, (cc, (cc, (cc, (cc, tt)))))))))),
        )
        (λ o. wire_kind-closed v expected result_keys k p (rw b) o ∙ sym (absent_result r k o))

  -- An accepted document and the wire form of the message that it is read as agree on every key:
  -- nothing was added, dropped or changed on the way in.
  pub validated_wire-exact :
      (v : Fields) (expected : Option String) (m : Message) {w : Fields} (k : String)
      → validated_wire v expected ≡ ok m
      → to_message m ≡ ok w
      → get k v ≡ get k w
  validated_wire-exact v expected (request r) {w} k h made =
      let accepted = validated_wire-Accepted v expected (request r) h in
      let formed = validated_wire-IsMessage v expected (request r) h in
      let e : w ≡ wire_form_request r = cc (made, request_to_message-eq formed.0) in
      rw e (request_spelled v expected r k accepted)
  validated_wire-exact v expected (result r) {w} k h made =
      let accepted = validated_wire-Accepted v expected (result r) h in
      let formed = validated_wire-IsMessage v expected (result r) h in
      let e : w ≡ wire_form_result r = cc (made, result_to_message-eq formed.0) in
      rw e (result_spelled v expected r k accepted)
