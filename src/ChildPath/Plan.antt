-- ===== src/ChildPath/Plan.antt =====
-- python/fala/child_path.py: what a child path is to do, and what is reported of it. What it writes of the parent's
-- specification is read as JSON; a `terminal_mapping` that is no object is refused, and the messages of
-- the exceptions that only end on standard error are left empty.
use fala.Prelude.{String, ◌<>◌, Option, none, some, List, [], ◌∷◌, if◌then◌else◌, ◌==◌}
use fala.Prelude.Int.{pos}
use fala.Python.Outcome.{
  Outcome, ok, raise, raise_if, ◌>>=◌, ◌>>◌, Error, builtin, value_error, type_error, key_error,
  runtime_error,
}
use fala.Python.Value.{Value, Fields, null, str, list, dict, end, field, get, put}
use fala.Python.Text.{split, first_chars}
use fala.Python.Json.{Platform}
use fala.Protocol.Message.{Request, result, from_request}
use fala.Protocol.Dialogue.{typed}
use fala.Sdk.Effector.{Environment, variable, Written, load_manifest, write_result}
use fala.Sdk.Inputs.{request, input_values, value_truthy}
use fala.Host.Package.{Order}

abbrev pub path_missing : String → Error
path_missing path = builtin value_error ("child_path input mapping path is missing: " <> path)

-- the loop of `_value_at`
abbrev pub value_along : (path : String) → List String → Value → Outcome Value
value_along path [] current = ok current
value_along path (segment ∷ segments) (dict fs) = elim (get segment fs) [
  | none ↦ raise (path_missing path)
  | some inner ↦ value_along path segments inner
]
value_along path (segment ∷ segments) current = raise (path_missing path)

-- `_value_at`
unfoldable pub value_at : Value → String → Outcome Value
value_at value path = value_along path (split 46 path) value

-- `spec[key]`
abbrev pub member : String → Value → Outcome Value
member key (dict fs) = elim (get key fs) [ none ↦ raise (builtin key_error "") | some v ↦ ok v ]
member key _ = raise (builtin type_error "")

abbrev pub as_text : Value → Outcome String
as_text (str s) = ok s
as_text _ = raise (builtin type_error "")

abbrev pub as_dict : Error → Option Value → Outcome Fields
as_dict e (some (dict fs)) = ok fs
as_dict e _ = raise e

-- `os.environ[name]`
abbrev pub environ_item : String → Environment → Outcome String
environ_item name environ = elim (variable name environ) [
  | none ↦ raise (builtin key_error "")
  | some v ↦ ok v
]

abbrev pub parsed : Option Value → Outcome Value
parsed none = raise (builtin value_error "")
parsed (some v) = ok v

-- `{target: _value_at(parent_input, source) for target, source in mapping.items()}`
abbrev pub mapped_inputs : Value → Fields → Outcome Fields
mapped_inputs parent end = ok end
mapped_inputs parent (field target source rest) = do
  path ← as_text source
  v ← value_at parent path
  fs ← mapped_inputs parent rest
  ok (field target v fs)

-- What the child is to do: its parent's request and journal, its own journal, and the call of the host.
pub record Plan : Type 0 where
  pub spec : Value
  pub manifest : Request
  pub parent_db : String
  pub child_db : String
  pub order : Order

abbrev pub child_order :
    (db package_path : String) → (path_id : Value) → (run_id : String) → Fields → Order
child_order db package_path path_id run_id inputs = record {
  db_path = db;
  package_path = package_path;
  path_id = path_id;
  run_id = run_id;
  inputs = some inputs;
  effector_inputs = none;
  effector_configs = none;
  command_overrides = none;
  execution_lock_path = none;
  max_ticks = pos 32;
  worker_id = "python-host";
}

-- `evidence` of the reply, if it has any
abbrev pub put_evidence : Option Value → Fields → Outcome Fields
put_evidence none payload = ok payload
put_evidence (some (list vs)) payload =
    ok (if value_truthy (list vs) then put "evidence" (list vs) payload else payload)
put_evidence (some v) payload =
    if value_truthy v
    then raise (builtin runtime_error "child_path path_result.evidence must be a list")
    else ok payload

abbrev pub value_or_null : Option Value → Value
value_or_null none = null
value_or_null (some v) = v

module _ ⦃platform : Platform⦄ where
  -- `identity`
  abbrev pub identity : (parent_run parent_process : String) → String
  identity parent_run parent_process =
      first_chars 24 (platform.sha256_hex (parent_run <> ("\0" <> parent_process)))

  -- `child_db`, in the resolved `journal_root`
  abbrev pub child_journal : (root identity : String) → String
  child_journal root identity = root <> ("/" <> (identity <> ".sqlite"))

  -- `main`, up to the call of the host
  unfoldable pub plan_child :
      (resolve : String → String)
      → Environment
      → (read_text : String → Outcome String) → Outcome Plan
  plan_child resolve environ read_text = do
    text ← environ_item "FALA_CHILD_PATH_SPEC" environ
    spec ← parsed (platform.loads text)
    manifest ← load_manifest environ read_text
    parent ← environ_item "FALA_PARENT_DB" environ
    parent_run ← environ_item "FALA_PARENT_RUN_ID" environ
    parent_process ← environ_item "FALA_PARENT_PROCESS_ID" environ
    root_value ← member "journal_root" spec
    root ← as_text root_value
    raise_if (child_journal (resolve root) (identity parent_run parent_process) == resolve parent)
        (builtin value_error "child_path journal must differ from parent journal")
    mapping ← member "input_mapping" spec
    sources ← as_dict (builtin type_error "") (some mapping)
    inputs ← mapped_inputs (dict (input_values (request manifest))) sources
    package_value ← member "package_ref" spec
    path_id ← member "path_id" spec
    package_ref ← as_text package_value
    ok (record {
      spec = spec;
      manifest = manifest;
      parent_db = resolve parent;
      child_db = child_journal (resolve root) (identity parent_run parent_process);
      order =
          child_order (resolve (child_journal (resolve root) (identity parent_run parent_process)))
            (resolve package_ref) path_id ("child-" <> identity parent_run parent_process) inputs;
    })

  -- `payload["child_ref"]`
  abbrev pub child_ref : Plan → (path_result : Fields) → (terminal : String) → Value
  child_ref plan path_result terminal = dict (
      field "journal" (str plan.child_db) (
        field "run_id" (str plan.order.run_id) (
          field "path_digest" (value_or_null (get "path_digest" path_result))
            (field "terminal" (str terminal) end))))

  -- the payload of the result, from the host's reply
  unfoldable pub child_payload : Plan → Fields → Outcome Fields
  child_payload plan reply = do
    path_result ←
        as_dict (builtin runtime_error "child_path did not return a typed path terminal")
          (get "path_result" reply)
    mapping ← member "terminal_mapping" plan.spec
    terminal ← as_text (value_or_null (get "terminal" path_result))
    parent_terminal ← member terminal mapping
    values ←
        as_dict (builtin runtime_error "child_path path_result.values must be an object")
          (get "values" path_result)
    put_evidence (get "evidence" path_result) (
        put "terminal" parent_terminal
          (put "child_ref" (child_ref plan path_result terminal) values))

  unfoldable pub report : Plan → Environment → Fields → Outcome Written
  report plan environ reply = do
    payload ← child_payload plan reply
    r ← from_request plan.manifest (dict payload) "ok"
    write_result environ (typed (result r))
