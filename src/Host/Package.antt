-- ===== src/Host/Package.antt =====
-- python/fala/host.py: `host_run_package` and `_execution_turn`. Paths are resolved texts unless they come
-- from the environment, and the directories of the database and of the lock are there. A caller that has
-- to wait for a lock is taken from the moment when it is free.
use fala.Prelude.{String, ◌<>◌, Bool, true, not, Option, none, some, List, [], ◌∷◌, if◌then◌else◌}
use fala.Prelude.Int.{ℤ}
use fala.Python.Outcome.{
  Outcome, ok, raise, raise_if, builtin, value_error, runtime_error, file_not_found,
}
use fala.Python.Effect.{Action, lift, gets, run_finally, ◌>>=◌, ◌>>◌}
use fala.Python.Value.{Value, Fields, Items, bool, int, str, list, dict, nil, item, end, field, put}
use fala.Python.Json.{Platform}
use fala.Sdk.Effector.{Environment, variable}
use fala.Host.Directory.{Process, Place, discard, is_blank, library_variable, with_sqlite_cwd}
use fala.Host.Memory.{Body, body_value}
use fala.Host.Calls.{Native}

-- What the call finds outside.
pub record Site : Type 0 where
  pub is_file : String → Bool
  pub is_absolute : String → Bool
  pub resolve : String → String
  -- `ensure_process_host_library`
  pub built_host : Outcome String
  -- `ensure_sqlite_fire_library` and `ensure_native`
  pub ready : Outcome (Unit {0})
  pub place : Place
  -- `json.dumps(request)`
  pub encode : Fields → Outcome String
  pub is_posix : Bool
  -- the time once the turn has come
  pub now : String
  pub executable : String
  pub child_runner : String
  pub pythonpath : String
  pub python_library : String
  pub fala_home : String

-- The arguments of a run.
pub record Order : Type 0 where
  pub db_path : String
  pub package_path : String
  pub path_id : Value
  pub run_id : String
  pub inputs : Option Fields
  pub effector_inputs : Option (List (String × Fields))
  pub effector_configs : Option (List (String × Body))
  pub command_overrides : Option (List (String × List String))
  pub execution_lock_path : Option String
  pub max_ticks : ℤ
  pub worker_id : String

-- `{key: f(value) for key, value in mapping.items()}`
abbrev pub dict_of : {A : Type 0} → (A → Value) → List (String × A) → Fields
dict_of f [] = end
dict_of f ((k, a) ∷ rest) = field k (f a) (dict_of f rest)

abbrev pub texts : List String → Items
texts [] = nil
texts (s ∷ ss) = item (str s) (texts ss)

-- `if mapping: request[key] = …`
abbrev pub put_filled : String → Fields → Fields → Fields
put_filled key end request = request
put_filled key (field k v fs) request = put key (dict (field k v fs)) request

abbrev pub put_mapping :
    {A : Type 0} → String → (A → Value) → Option (List (String × A)) → Fields → Fields
put_mapping key f none request = request
put_mapping key f (some entries) request = put_filled key (dict_of f entries) request

abbrev pub put_inputs : Option Fields → Fields → Fields
put_inputs none request = request
put_inputs (some fs) request = put_filled "inputs" fs request

-- `request["host_environment"]`, with the library of the process host
abbrev pub host_environment : Environment → String → Fields
host_environment environ library = put library_variable (str library) (dict_of str environ)

-- The request as it is sent: `created_at` and `now` are the time of the turn.
unfoldable pub package_request : Site → Order → Environment → (library : String) → Fields
package_request site order environ library =
    put_mapping "command_overrides" (λ args. list (texts args)) order.command_overrides
      (put_mapping "effector_configs" body_value order.effector_configs (
        put_mapping "effector_inputs" dict order.effector_inputs (
          put_inputs order.inputs (
            field "db_path" (str order.db_path) (
              field "package_path" (str order.package_path) (
                field "path_id" order.path_id (
                  field "run_id" (str order.run_id) (
                    field "max_ticks" (int order.max_ticks) (
                      field "worker_id" (str order.worker_id) (
                        field "created_at" (str site.now) (
                          field "now" (str site.now) (
                            field "realtime_timestamps" (bool true) (
                              field "lease_expires_at" (str "2099-01-01T00:00:00Z") (
                                field "host_environment" (dict (host_environment environ library)) (
                                  field "child_runner_command"
                                    (list (texts (site.executable ∷ site.child_runner ∷ [])))
                                    (field "child_runner_pythonpath" (str site.pythonpath) (
                                      field "python_library" (str site.python_library) (
                                        field "fala_home" (str site.fala_home) end))))))))))))))))))

-- The process, and the locks that are held.
abbrev pub Hall : Type 0
Hall = Process × List String

abbrev pub on_process : {A : Type 0} → Action Process A → Action Hall A
on_process body (p, held) = let (r, q) = body p in (r, (q, held))

abbrev pub lock_unavailable : String
lock_unavailable = "fala.host_run_package: execution_lock_path is only supported on POSIX hosts"

-- `_execution_turn`
unfoldable pub execution_turn : {A : Type 0} → Bool → Option String → Action Hall A → Action Hall A
execution_turn is_posix none body h = body h
execution_turn is_posix (some path) body (p, held) =
    if not is_posix
    then (raise (builtin runtime_error lock_unavailable), (p, held))
    else run_finally (λ h. (h.0, discard path h.1)) body (p, path ∷ held)

-- the reply of the native operation: anything but a dict is refused
abbrev pub package_reply : Value → Outcome Fields
package_reply (dict fs) = ok fs
package_reply _ = raise (builtin runtime_error "fala.host_run_package failed: ")

abbrev pub text_or_empty : Option String → String
text_or_empty none = ""
text_or_empty (some s) = s

module _ ⦃platform : Platform⦄ (site : Site) where
  -- a library that the environment names
  abbrev pub configured_host : String → Outcome String
  configured_host path =
      if not (site.is_absolute path)
      then raise (builtin value_error "FALA_PROCESS_HOST_LIBRARY must be an absolute path")
      else if not (site.is_file path)
      then raise
          (builtin value_error "FALA_PROCESS_HOST_LIBRARY must name an existing regular file")
      else ok path

  unfoldable pub process_host_library : Environment → Outcome String
  process_host_library environ =
      if is_blank (variable library_variable environ)
      then site.built_host
      else configured_host (text_or_empty (variable library_variable environ))

  abbrev pub call_package : Native → Fields → Action Process Fields
  call_package native request = do
    payload ← lift (site.encode request)
    out ← native payload
    lift (package_reply out)

  abbrev pub package_found : Order → Outcome (Unit {0})
  package_found order =
      raise_if (not (site.is_file order.package_path))
        (builtin file_not_found ("fala package not found: " <> order.package_path))

  -- the turn, in which the native operation runs
  abbrev pub drive_package : Native → Order → (environ : Environment) → String → Action Hall Fields
  drive_package native order environ library =
      execution_turn site.is_posix order.execution_lock_path (
        on_process (
          with_sqlite_cwd site.place (some (site.resolve library))
            (call_package native (package_request site order environ (site.resolve library)))))

  abbrev pub prepare_package : Native → Order → (environ : Environment) → Action Hall Fields
  prepare_package native order environ = do
    library ← lift (process_host_library environ)
    lift site.ready
    drive_package native order environ library

  -- `host_run_package`
  unfoldable pub host_run_package : Native → Order → Action Hall Fields
  host_run_package native order = do
    lift (package_found order)
    environ ← gets (λ h. h.0.environ)
    prepare_package native order environ
