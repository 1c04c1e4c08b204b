-- ===== src/Protocol/Wire.antt =====
-- python/fala/protocol.py: `_validated_wire`, `validate` and `parse`.
use fala.Prelude.{
  String, ◌<>◌, Bool, false, not, ◌&&◌, ◌||◌, Option, none, some, List, [], ◌∷◌, is_in,
  if◌then◌else◌, ◌==◌,
}
use fala.Python.Outcome.{
  Outcome, ok, raise, raise_if, Error, protocol_error, builtin, type_error, ◌>>=◌, ◌>>◌,
}
use fala.Python.Value.{Value, Fields, str, list, dict, get, keys, pop}
use fala.Python.Text.{truthy, least}
use fala.Python.Json.{Platform}
use fala.Protocol.Message.{
  Request, Result, Message, request, result, statuses, kind_of, to_message, message_id, new_request,
  new_result,
}

abbrev pub request_keys : List String
request_keys =
    "protocol" ∷ "kind" ∷ "id" ∷ "from" ∷ "to" ∷ "job" ∷ "payload" ∷ "config" ∷ "contract_id"
    ∷ "contract_version" ∷ []

abbrev pub result_keys : List String
result_keys =
    "protocol" ∷ "kind" ∷ "id" ∷ "from" ∷ "to" ∷ "job" ∷ "ref" ∷ "status" ∷ "payload"
    ∷ "contract_id" ∷ "contract_version" ∷ []

-- `value == text`, for what `get` returned and a text
abbrev pub is_text : String → Option Value → Bool
is_text s (some (str t)) = t == s
is_text s _ = false

-- a non-empty text, or a ProtocolError
abbrev pub text_or : Error → Option Value → Outcome String
text_or e (some (str s)) = if truthy s then ok s else raise e
text_or e _ = raise e

unfoldable pub require_text : Fields → String → Outcome String
require_text value key = text_or (protocol_error "fep.required" ("/" <> key)) (get key value)

abbrev pub dict_or : Error → Option Value → Outcome Fields
dict_or e (some (dict fs)) = ok fs
dict_or e _ = raise e

unfoldable pub require_object : Fields → String → Outcome Fields
require_object value key = dict_or (protocol_error "fep.type_invalid" ("/" <> key)) (get key value)

-- `value.keys() - allowed`
unfoldable pub keys_outside : List String → List String → List String
keys_outside allowed [] = []
keys_outside allowed (k ∷ ks) =
    let rest = keys_outside allowed ks in if is_in k allowed then rest else k ∷ rest

-- `if unknown: raise …("/" + sorted(unknown)[0])`
abbrev pub refuse_least : List String → Outcome (Unit {0})
refuse_least unknown = elim (least unknown) [
  | none ↦ ok tt
  | some k ↦ raise (protocol_error "fep.unknown_field" ("/" <> k))
]

-- `status not in _STATUSES` hashes the status, so a list or a dict raises TypeError.
abbrev pub status_or : Option Value → Outcome String
status_or (some (str s)) =
    if is_in s statuses then ok s else raise (protocol_error "fep.status_invalid" "/status")
status_or (some (list _)) = raise (builtin type_error "")
status_or (some (dict _)) = raise (builtin type_error "")
status_or _ = raise (protocol_error "fep.status_invalid" "/status")

-- `expected_kind and kind != expected_kind`
abbrev pub unexpected : Option String → Option Value → Bool
unexpected none kind = false
unexpected (some expected) kind = truthy expected && not (is_text expected kind)

abbrev pub digest_mismatch : Error
digest_mismatch = protocol_error "fep.digest_mismatch" "/id"

-- the first half of `_validated_wire`: what both kinds share, with a field for each local variable
pub record Envelope : Type 0 where
  pub sender : String
  pub recipient : String
  pub job : String
  pub payload : Fields
  pub contract_id : String
  pub contract_version : String
  pub supplied : String

unfoldable pub wire_kind : Fields → Option String → Outcome (Unit {0})
unfolding keys_outside
wire_kind value expected = do
  raise_if (not (is_text "fala" (get "protocol" value)))
      (protocol_error "fep.unknown_protocol" "/protocol")
  raise_if (not (is_text "request" (get "kind" value) || is_text "result" (get "kind" value)))
      (protocol_error "fep.unknown_message_kind" "/kind")
  raise_if (unexpected expected (get "kind" value))
      (protocol_error "fep.unexpected_message_kind" "/kind")
  refuse_least (
      keys_outside (if is_text "request" (get "kind" value) then request_keys else result_keys)
        (keys value))

unfoldable pub wire_envelope : Fields → Outcome Envelope
wire_envelope value = do
  sender ← require_text value "from"
  recipient ← require_text value "to"
  job ← require_text value "job"
  payload ← require_object value "payload"
  contract_id ← require_text value "contract_id"
  contract_version ← require_text value "contract_version"
  supplied ← require_text value "id"
  ok (record {
    sender = sender;
    recipient = recipient;
    job = job;
    payload = payload;
    contract_id = contract_id;
    contract_version = contract_version;
    supplied = supplied;
  })

module _ ⦃platform : Platform⦄ where
  unfoldable pub wire_request : Fields → Envelope → Outcome Request
  wire_request value e = do
    config ← require_object value "config"
    digest ← message_id (pop "id" value)
    raise_if (not (e.supplied == digest)) digest_mismatch
    r ←
        new_request e.sender e.recipient e.job (dict e.payload) (dict config) e.contract_id
          e.contract_version
    raise_if (not (r.id == e.supplied)) digest_mismatch
    ok r

  unfoldable pub wire_result : Fields → Envelope → Outcome Result
  wire_result value e = do
    ref ← require_text value "ref"
    status ← status_or (get "status" value)
    digest ← message_id (pop "id" value)
    raise_if (not (e.supplied == digest)) digest_mismatch
    r ←
        new_result e.sender e.job ref (dict e.payload) status e.recipient e.contract_id
          e.contract_version
    raise_if (not (r.id == e.supplied)) digest_mismatch
    ok r

  unfoldable pub validated_wire : Fields → Option String → Outcome Message
  validated_wire value expected = do
    wire_kind value expected
    e ← wire_envelope value
    if is_text "request" (get "kind" value)
        then (do r ← wire_request value e; ok (request r))
        else (do r ← wire_result value e; ok (result r))

  -- `validate` of a typed message, and of a mapping
  unfoldable pub validate_message : Message → Option String → Outcome Message
  unfolding validated_wire
  validate_message m expected = do
    raise_if (unexpected expected (some (str (kind_of m))))
        (protocol_error "fep.unexpected_message_kind" "/kind")
    value ← to_message m
    validated_wire value expected

  abbrev pub parsed : Option String → Option Value → Outcome Message
  parsed expected (some (dict value)) = validated_wire value expected
  parsed expected _ = raise (protocol_error "fep.invalid_json" "/")

  -- `parse` of a text
  unfoldable pub parse : String → Option String → Outcome Message
  unfolding validated_wire
  parse text expected = parsed expected (platform.loads text)
