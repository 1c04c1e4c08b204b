-- ===== src/Host/Memory.antt =====
-- python/fala/host.py: `MemoryHost`, which gathers what `host_drive` is called with once. `json.dumps` with
-- its defaults and the native `host_drive` are parameters.
use fala.Prelude.{String, Option, none, some, List, map}
use fala.Prelude.Int.{ℤ, pos}
use fala.Python.Outcome.{Outcome, ok, raise, Error, builtin, value_error, runtime_error, ◌>>=◌}
use fala.Python.Effect.{Action}
use fala.Python.Value.{Value, Fields, int, str, list, dict, end, field, items_of, put}

-- `Mapping | str`
pub data Body : Type 0 where
  text : String → Body
  mapping : Fields → Body

abbrev pub body_value : Body → Value
body_value (text s) = str s
body_value (mapping fs) = dict fs

-- `if value is not None: request[key] = dict(value)`
abbrev pub put_given : String → Option Fields → Fields → Fields
put_given key none request = request
put_given key (some fs) request = put key (dict fs) request

-- The request of `host_drive`.
abbrev pub drive_request :
    (run_id : String) (path : Fields) (impulse outputs : Option Fields) (stream_id title : String)
    (max_ticks : ℤ)
    → Fields
drive_request run_id path impulse outputs stream_id title max_ticks = put_given "outputs" outputs (
    put_given "impulse" impulse (
      field "stream_id" (str stream_id) (
        field "run_id" (str run_id) (
          field "title" (str title)
            (field "path" (dict path) (field "max_ticks" (int max_ticks) end))))))

-- `out` of the native call: anything but a dict is refused
abbrev pub drive_reply : Value → Outcome Fields
drive_reply (dict fs) = ok fs
drive_reply _ = raise (builtin runtime_error "fala: host_drive result is not an object")

module _ (encode : Value → Outcome String) (native : String → Outcome Value) where
  -- `payload` of `_call_host_drive`
  abbrev pub drive_payload : Body → Outcome String
  drive_payload (text s) = ok s
  drive_payload (mapping fs) = encode (dict fs)

  -- `_call_host_drive`
  unfoldable pub call_host_drive : Body → Outcome Fields
  call_host_drive request = do
    payload ← drive_payload request
    out ← native payload
    drive_reply out

  unfoldable pub host_drive :
      (run_id : String) (path : Fields) (impulse outputs : Option Fields) (stream_id title : String)
      (max_ticks : ℤ)
      → Outcome Fields
  host_drive run_id path impulse outputs stream_id title max_ticks =
      call_host_drive
        (mapping (drive_request run_id path impulse outputs stream_id title max_ticks))

-- The fields of a `MemoryHost`.
pub record Session : Type 0 where
  pub run_id : String
  pub stream_id : String
  pub title : String
  pub impulse : Option Fields
  pub path : Option Fields
  pub outputs : Fields
  pub max_ticks : ℤ

unfoldable pub open_memory : (run_id stream_id title : String) → Session
open_memory run_id stream_id title = record {
  run_id = run_id;
  stream_id = stream_id;
  title = title;
  impulse = none;
  path = none;
  outputs = end;
  max_ticks = pos 16;
}

abbrev pub payload_value : Option Body → Value
payload_value none = dict end
payload_value (some b) = body_value b

abbrev pub impulse_fields : (impulse_id impulse_type : String) → Option Body → Fields
impulse_fields impulse_id impulse_type payload =
    field "id" (str impulse_id)
      (field "type" (str impulse_type) (field "payload" (payload_value payload) end))

abbrev pub path_fields : (path_id : String) → List Fields → Fields
path_fields path_id effectors =
    field "id" (str path_id) (field "effectors" (list (items_of (map dict effectors))) end)

unfoldable pub accept_impulse : (impulse_id impulse_type : String) → Option Body → Session → Session
accept_impulse impulse_id impulse_type payload s = record s {
  impulse = some (impulse_fields impulse_id impulse_type payload);
}

unfoldable pub set_path : (path_id : String) → List Fields → Session → Session
set_path path_id effectors s = record s { path = some (path_fields path_id effectors) }

unfoldable pub register_output : (effector_id : String) → Body → Session → Session
register_output effector_id output s = record s {
  outputs = put effector_id (body_value output) s.outputs;
}

-- `self._outputs or None`
abbrev pub outputs_or_none : Fields → Option Fields
outputs_or_none end = none
outputs_or_none (field k v fs) = some (field k v fs)

abbrev pub no_path : Error
no_path = builtin value_error "MemoryHost: set_path() required before drive()"

module _ (encode : Value → Outcome String) (native : String → Outcome Value) where
  abbrev pub drive_along : ℤ → Option Fields → Action Session Fields
  drive_along max_ticks none s = (raise no_path, s)
  drive_along max_ticks (some path) s = (
    host_drive encode native s.run_id path s.impulse (outputs_or_none s.outputs) s.stream_id s.title
        max_ticks,
    record s { max_ticks = max_ticks },
  )

  -- `MemoryHost.drive`
  unfoldable pub drive : ℤ → Action Session Fields
  drive max_ticks s = drive_along max_ticks s.path s
