-- ===== src/Protocol/WellFormed.antt =====
-- What every constructed message satisfies: named parties, a contract, and an id that is the digest
-- of its own body.
use text.Mathlib.TextLemmas.{cons-append}
use fala.Prelude.{String, ◌≡◌, true, arith, is_in}
use fala.Python.Outcome.{ok, invert}
use fala.Python.Value.{Value, Fields, str, end, field}
use fala.Python.Text.{truthy}
use fala.Python.Json.{Platform}
use fala.Protocol.Message.{
  Request, Result, statuses, request_fields, result_fields, message_id, canonical, new_request,
  new_result,
}

abbrev pub contract_fields : String → String → Fields
contract_fields contract_id contract_version =
    field "contract_id" (str contract_id) (field "contract_version" (str contract_version) end)

module _ ⦃platform : Platform⦄ where
  pub record IsRequest (r : Request) : Type 0 where
    pub sender_named : truthy r.sender ≡ true
    pub recipient_named : truthy r.recipient ≡ true
    pub job_named : truthy r.job ≡ true
    pub contract_named : truthy r.contract_id ≡ true
    pub version_named : truthy r.contract_version ≡ true
    pub digest :
        message_id (
          request_fields r.sender r.recipient r.job r.payload r.config
            (contract_fields r.contract_id r.contract_version))
        ≡ ok r.id

  pub record IsResult (r : Result) : Type 0 where
    pub sender_named : truthy r.sender ≡ true
    pub recipient_named : truthy r.recipient ≡ true
    pub job_named : truthy r.job ≡ true
    pub ref_named : truthy r.ref ≡ true
    pub status_known : is_in r.status statuses ≡ true
    pub contract_named : truthy r.contract_id ≡ true
    pub version_named : truthy r.contract_version ≡ true
    pub digest :
        message_id (
          result_fields r.sender r.recipient r.job r.ref r.status r.payload
            (contract_fields r.contract_id r.contract_version))
        ≡ ok r.id

  -- An id is never empty.
  pub message_id-truthy : (body : Fields) (i : String) → message_id body ≡ ok i → truthy i ≡ true
  unfolding message_id
  message_id-truthy body i h =
      invert (canonical body) _ h
        λ text _ e. ground (arith, e, cons-append "m" "sg:sha256:" (platform.sha256_hex text))

  pub new_request-IsRequest :
      (sender recipient job : String) (payload config : Value) (ci cv : String) {r : Request}
      → new_request sender recipient job payload config ci cv ≡ ok r
      → IsRequest r
  unfolding new_request
  new_request-IsRequest sender recipient job payload config ci cv h = ground arith

  pub new_result-IsResult :
      (sender job ref : String) (payload : Value) (status recipient ci cv : String) {r : Result}
      → new_result sender job ref payload status recipient ci cv ≡ ok r
      → IsResult r
  unfolding new_result
  new_result-IsResult sender job ref payload status recipient ci cv h = ground arith
