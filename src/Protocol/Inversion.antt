-- ===== src/Protocol/Inversion.antt =====
-- What each step of a validation that returned has found out about the document.
use fala.Prelude.{
  ◌≡◌, refl, String, ◌==◌, not, true, false, Option, none, some, List, arith, ◌⊎◌, if◌then◌else◌,
  eq_iff, is_in,
}
use fala.Python.Outcome.{ok, raise_if, invert}
use fala.Python.Value.{Value, Fields, str, dict, end, field, get, keys, pop}
use fala.Python.Text.{truthy}
use fala.Python.Json.{Platform}
use fala.Protocol.Message.{Request, Result, message_id, new_request, new_result}
use fala.Protocol.Wire.{
  request_keys, result_keys, is_text, require_text, require_object, status_or, unexpected,
  wire_kind, wire_envelope, wire_request, wire_result, keys_outside, refuse_least, Envelope,
  digest_mismatch,
}
use fala.Protocol.WellFormed.{IsRequest, IsResult, new_request-IsRequest, new_result-IsResult}

keys_outside-absent :
    (allowed : List String) (v : Fields) (k : String)
    → refuse_least (keys_outside allowed (keys v)) ≡ ok tt
    → is_in k allowed ≡ false
    → get k v ≡ none
unfolding keys_outside
keys_outside-absent allowed end k h o = refl
keys_outside-absent allowed (field j w fs) k h o =
    ground (arith, eq_iff k j, keys_outside-absent allowed fs k)

-- What the first half of the validation has found out.
pub record Opened (v : Fields) (expected : Option String) : Type 0 where
  pub protocol : get "protocol" v ≡ some (str "fala")
  pub kind : (get "kind" v ≡ some (str "request")) ⊎ (get "kind" v ≡ some (str "result"))
  pub expected_kind : unexpected expected (get "kind" v) ≡ false

pub is_text-eq : (s : String) (o : Option Value) → is_text s o ≡ true → o ≡ some (str s)
is_text-eq s none h = cc
is_text-eq s (some (str t)) h = ground (arith, eq_iff t s)
is_text-eq s (some _) h = cc

pub wire_kind-Opened :
    (v : Fields) (expected : Option String) → wire_kind v expected ≡ ok tt → Opened v expected
unfolding wire_kind
wire_kind-Opened v expected h = ground (
  arith,
  is_text-eq "fala" (get "protocol" v),
  is_text-eq "request" (get "kind" v),
  is_text-eq "result" (get "kind" v),
)

pub wire_kind-closed :
    (v : Fields) (expected : Option String) (allowed : List String) (k : String)
    → wire_kind v expected ≡ ok tt
    → (if is_text "request" (get "kind" v) then request_keys else result_keys) ≡ allowed
    → is_in k allowed ≡ false
    → get k v ≡ none
unfolding wire_kind
wire_kind-closed v expected allowed k h q o =
    keys_outside-absent allowed v k (rw (← q) (ground arith)) o

pub record EnvelopeOf (v : Fields) (e : Envelope) : Type 0 where
  pub sender : get "from" v ≡ some (str e.sender)
  pub recipient : get "to" v ≡ some (str e.recipient)
  pub job : get "job" v ≡ some (str e.job)
  pub payload : get "payload" v ≡ some (dict e.payload)
  pub contract_id : get "contract_id" v ≡ some (str e.contract_id)
  pub contract_version : get "contract_version" v ≡ some (str e.contract_version)
  pub id : get "id" v ≡ some (str e.supplied)

require_text-eq-ok :
    (v : Fields) (key : String) {s : String}
    → require_text v key ≡ ok s
    → (get key v ≡ some (str s)) × (truthy s ≡ true)
unfolding require_text
require_text-eq-ok v key h = ground arith

require_object-eq-ok :
    (v : Fields) (key : String) {fs : Fields}
    → require_object v key ≡ ok fs
    → get key v ≡ some (dict fs)
unfolding require_object
require_object-eq-ok v key h = ground arith

pub wire_envelope-EnvelopeOf : (v : Fields) {e : Envelope} → wire_envelope v ≡ ok e → EnvelopeOf v e
unfolding wire_envelope
wire_envelope-EnvelopeOf v {e} h = invert (require_text v "from") _ h λ from p₁ h₁.
    invert (require_text v "to") _ h₁ λ to p₂ h₂. invert (require_text v "job") _ h₂ λ job p₃ h₃.
      invert (require_object v "payload") _ h₃ λ payload p₄ h₄.
        invert (require_text v "contract_id") _ h₄ λ contract p₅ h₅.
          invert (require_text v "contract_version") _ h₅ λ version p₆ h₆.
            invert (require_text v "id") _ h₆ λ id p₇ h₇. ground (
              arith,
              require_text-eq-ok v "from" p₁,
              require_text-eq-ok v "to" p₂,
              require_text-eq-ok v "job" p₃,
              require_object-eq-ok v "payload" p₄,
              require_text-eq-ok v "contract_id" p₅,
              require_text-eq-ok v "contract_version" p₆,
              require_text-eq-ok v "id" p₇,
            )

module _ ⦃platform : Platform⦄ where
  pub record RequestOf (v : Fields) (e : Envelope) (r : Request) : Type 0 where
    pub config : get "config" v ≡ some (dict r.config)
    pub sender : r.sender ≡ e.sender
    pub recipient : r.recipient ≡ e.recipient
    pub job : r.job ≡ e.job
    pub payload : r.payload ≡ e.payload
    pub contract_id : r.contract_id ≡ e.contract_id
    pub contract_version : r.contract_version ≡ e.contract_version
    pub id : r.id ≡ e.supplied
    pub body : message_id (pop "id" v) ≡ ok r.id
    pub formed : IsRequest r

  new_request-fields :
      (sender recipient job : String) (payload config : Fields) (ci cv : String) {r : Request}
      → new_request sender recipient job (dict payload) (dict config) ci cv ≡ ok r
      → (r.sender ≡ sender)
        × (r.recipient ≡ recipient)
        × (r.job ≡ job)
        × (r.payload ≡ payload)
        × (r.config ≡ config)
        × (r.contract_id ≡ ci)
        × (r.contract_version ≡ cv)
  unfolding new_request
  new_request-fields sender recipient job payload config ci cv h = ground arith

  pub wire_request-RequestOf :
      (v : Fields) (e : Envelope) {r : Request} → wire_request v e ≡ ok r → RequestOf v e r
  unfolding wire_request
  wire_request-RequestOf v e {r} h = invert (require_object v "config") _ h λ config p₁ h₁.
      invert (message_id (pop "id" v)) _ h₁ λ digest p₂ h₂.
        invert (raise_if (not (e.supplied == digest)) digest_mismatch) _ h₂ λ _ p₃ h₃.
          invert
            (new_request e.sender e.recipient e.job (dict e.payload) (dict config) e.contract_id
              e.contract_version)
            _ h₃
            λ made p₄ h₄. ground (
              arith,
              eq_iff e.supplied digest,
              eq_iff made.id e.supplied,
              require_object-eq-ok v "config" p₁,
              new_request-fields e.sender e.recipient e.job e.payload config e.contract_id
                  e.contract_version p₄,
              new_request-IsRequest e.sender e.recipient e.job (dict e.payload) (dict config)
                  e.contract_id e.contract_version p₄,
            )

  pub record ResultOf (v : Fields) (e : Envelope) (r : Result) : Type 0 where
    pub ref : get "ref" v ≡ some (str r.ref)
    pub status : get "status" v ≡ some (str r.status)
    pub sender : r.sender ≡ e.sender
    pub recipient : r.recipient ≡ e.recipient
    pub job : r.job ≡ e.job
    pub payload : r.payload ≡ e.payload
    pub contract_id : r.contract_id ≡ e.contract_id
    pub contract_version : r.contract_version ≡ e.contract_version
    pub id : r.id ≡ e.supplied
    pub body : message_id (pop "id" v) ≡ ok r.id
    pub formed : IsResult r

  pub new_result-fields :
      (sender job ref : String) (payload : Fields) (status recipient ci cv : String) {r : Result}
      → new_result sender job ref (dict payload) status recipient ci cv ≡ ok r
      → (r.sender ≡ sender)
        × (r.recipient ≡ recipient)
        × (r.job ≡ job)
        × (r.payload ≡ payload)
        × (r.ref ≡ ref)
        × (r.status ≡ status)
        × (r.contract_id ≡ ci)
        × (r.contract_version ≡ cv)
  unfolding new_result
  new_result-fields sender job ref payload status recipient ci cv h = ground arith

  status_or-eq-ok : (o : Option Value) {s : String} → status_or o ≡ ok s → o ≡ some (str s)
  status_or-eq-ok o h = ground arith

  pub wire_result-ResultOf :
      (v : Fields) (e : Envelope) {r : Result} → wire_result v e ≡ ok r → ResultOf v e r
  unfolding wire_result
  wire_result-ResultOf v e {r} h = invert (require_text v "ref") _ h λ ref p₁ h₁.
      invert (status_or (get "status" v)) _ h₁ λ status p₂ h₂.
        invert (message_id (pop "id" v)) _ h₂ λ digest p₃ h₃.
          invert (raise_if (not (e.supplied == digest)) digest_mismatch) _ h₃ λ _ p₄ h₄.
            invert
              (new_result e.sender e.job ref (dict e.payload) status e.recipient e.contract_id
                e.contract_version)
              _ h₄
              λ made p₅ h₅. ground (
                arith,
                eq_iff e.supplied digest,
                eq_iff made.id e.supplied,
                require_text-eq-ok v "ref" p₁,
                status_or-eq-ok (get "status" v) p₂,
                new_result-fields e.sender e.job ref e.payload status e.recipient e.contract_id
                    e.contract_version p₅,
                new_result-IsResult e.sender e.job ref (dict e.payload) status e.recipient
                    e.contract_id e.contract_version p₅,
              )
