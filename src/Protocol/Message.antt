-- ===== src/Protocol/Message.antt =====
-- python/fala/protocol.py: the two typed messages, the identity that each derives from its canonical
-- body, and their wire form.
use fala.Prelude.{String, ◌<>◌, not, ◌&&◌, List, [], ◌∷◌, is_in}
use fala.Python.Outcome.{Outcome, ok, raise, raise_if, protocol_error, ◌>>=◌, ◌>>◌}
use fala.Python.Value.{Value, Fields, str, dict, end, field}
use fala.Python.Text.{truthy}
use fala.Python.Json.{Platform, compact, dumps}

-- frozen dataclass `Request`
pub record Request : Type 0 where
  pub sender : String
  pub recipient : String
  pub job : String
  pub payload : Fields
  pub config : Fields
  pub contract_id : String
  pub contract_version : String
  pub id : String

-- frozen dataclass `Result`
pub record Result : Type 0 where
  pub sender : String
  pub job : String
  pub ref : String
  pub payload : Fields
  pub status : String
  pub recipient : String
  pub contract_id : String
  pub contract_version : String
  pub id : String

-- `Message: TypeAlias = Request | Result`
pub data Message : Type 0 where
  request : Request → Message
  result : Result → Message

abbrev pub statuses : List String
statuses = "ok" ∷ "error" ∷ []

-- `isinstance(value, Mapping)`, or a ProtocolError at the pointer
abbrev pub mapping : String → Value → Outcome Fields
mapping pointer (dict fs) = ok fs
mapping pointer _ = raise (protocol_error "fep.type_invalid" pointer)

-- `{**a, **b}`, for dicts with no common key
abbrev pub spread : Fields → Fields → Fields
spread end gs = gs
spread (field k v fs) gs = field k v (spread fs gs)

unfoldable pub contract_body : String → String → Outcome Fields
contract_body contract_id contract_version = do
  raise_if (not (truthy contract_id)) (protocol_error "fep.required" "/contract_id")
  raise_if (not (truthy contract_version)) (protocol_error "fep.required" "/contract_version")
  ok (field "contract_id" (str contract_id) (field "contract_version" (str contract_version) end))

-- The dict displays of `__post_init__` and of `to_message`, before what they end in.
abbrev pub request_fields : String → String → String → Fields → Fields → Fields → Fields
request_fields sender recipient job payload config rest = field "protocol" (str "fala") (
    field "kind" (str "request") (
      field "from" (str sender) (
        field "to" (str recipient) (
          field "job" (str job)
            (field "payload" (dict payload) (field "config" (dict config) rest))))))

abbrev pub result_fields : String → String → String → String → String → Fields → Fields → Fields
result_fields sender recipient job ref status payload rest = field "protocol" (str "fala") (
    field "kind" (str "result") (
      field "from" (str sender) (
        field "to" (str recipient) (
          field "job" (str job) (
            field "ref" (str ref)
              (field "status" (str status) (field "payload" (dict payload) rest)))))))

abbrev pub kind_of : Message → String
kind_of (request _) = "request"
kind_of (result _) = "result"

-- `Request.to_message`
unfoldable pub request_to_message : Request → Outcome Fields
unfolding contract_body
request_to_message r = do
  contract ← contract_body r.contract_id r.contract_version
  ok (
      request_fields r.sender r.recipient r.job r.payload r.config
        (spread contract (field "id" (str r.id) end)))

-- `Result.to_message`
unfoldable pub result_to_message : Result → Outcome Fields
unfolding contract_body
result_to_message r = do
  contract ← contract_body r.contract_id r.contract_version
  ok (
      result_fields r.sender r.recipient r.job r.ref r.status r.payload
        (spread contract (field "id" (str r.id) end)))

abbrev pub to_message : Message → Outcome Fields
to_message (request r) = request_to_message r
to_message (result r) = result_to_message r

module _ ⦃platform : Platform⦄ where
  unfoldable pub canonical : Fields → Outcome String
  canonical value = dumps compact (dict value)

  unfoldable pub message_id : Fields → Outcome String
  message_id body = do text ← canonical body; ok ("msg:sha256:" <> platform.sha256_hex text)

  -- `Request(…)` and its `__post_init__`
  unfoldable pub new_request :
      (sender recipient job : String) (payload config : Value)
      (contract_id contract_version : String)
      → Outcome Request
  unfolding contract_body
  new_request sender recipient job payload config contract_id contract_version = do
    raise_if (not (truthy sender && (truthy recipient && truthy job)))
        (protocol_error "fep.required" "/from")
    payload' ← mapping "/payload" payload
    config' ← mapping "/config" config
    contract ← contract_body contract_id contract_version
    digest ← message_id (request_fields sender recipient job payload' config' contract)
    ok (record {
      sender = sender;
      recipient = recipient;
      job = job;
      payload = payload';
      config = config';
      contract_id = contract_id;
      contract_version = contract_version;
      id = digest;
    })

  -- `Result(…)` and its `__post_init__`
  unfoldable pub new_result :
      (sender job ref : String) (payload : Value) (status recipient : String)
      (contract_id contract_version : String)
      → Outcome Result
  unfolding contract_body
  new_result sender job ref payload status recipient contract_id contract_version = do
    raise_if (not (truthy sender && (truthy recipient && (truthy job && truthy ref))))
        (protocol_error "fep.required" "/ref")
    raise_if (not (is_in status statuses)) (protocol_error "fep.status_invalid" "/status")
    payload' ← mapping "/payload" payload
    contract ← contract_body contract_id contract_version
    digest ← message_id (result_fields sender recipient job ref status payload' contract)
    ok (record {
      sender = sender;
      job = job;
      ref = ref;
      payload = payload';
      status = status;
      recipient = recipient;
      contract_id = contract_id;
      contract_version = contract_version;
      id = digest;
    })

  -- `Result.from_request`
  unfoldable pub from_request : Request → Value → String → Outcome Result
  unfolding new_result
  from_request r payload status =
      new_result r.recipient r.job r.id payload status r.sender r.contract_id r.contract_version
