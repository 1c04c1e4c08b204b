-- ===== src/Host/Sent.antt =====
-- python/fala/host.py: what `host_run_package` has the native engine do.
use mathlib.Core.Option
use fala.Prelude.{
  String, ◌≡◌, refl, ◌∙◌, ap, arith, inl, ◌⊎◌, true, false, Option, none, some, List, [], ◌∷◌,
  if◌then◌else◌, ◌==◌,
}
use fala.Python.Outcome.{ok}
use fala.Python.Effect.{Action, lift, ◌>>=◌}
use fala.Python.Value.{Value, Fields, int, str, list, dict, end, field, get}
use fala.Python.Json.{Platform}
use fala.Sdk.Effector.{Environment, variable}
use fala.Host.Directory.{Process, is_blank, library_variable, enter, with_sqlite_cwd, Place}
use fala.Host.Calls.{Native}
use fala.Host.Memory.{body_value}
use fala.Host.Built.{get-put}
use fala.Host.Package.{
  Site, Order, dict_of, put_filled, put_mapping, put_inputs, texts, package_reply, host_environment,
  package_request, on_process, execution_turn, process_host_library, call_package, host_run_package,
  configured_host, text_or_empty,
}

get-put_filled :
    (k key : String) (fs request : Fields)
    → (k == key) ≡ false
    → get k (put_filled key fs request) ≡ get k request
get-put_filled k key end request h = refl
get-put_filled k key (field j v fs) request h =
    get-put k key (dict (field j v fs)) request ∙ rw h refl

get-put_mapping :
    {A : Type 0} (k key : String) (f : A → Value) (m : Option (List (String × A)))
    (request : Fields)
    → (k == key) ≡ false
    → get k (put_mapping key f m request) ≡ get k request
get-put_mapping k key f none request h = refl
get-put_mapping k key f (some es) request h = get-put_filled k key (dict_of f es) request h

get-put_inputs :
    (k : String) (inputs : Option Fields) (request : Fields)
    → (k == "inputs") ≡ false
    → get k (put_inputs inputs request) ≡ get k request
get-put_inputs k none request h = refl
get-put_inputs k (some fs) request h = get-put_filled k "inputs" fs request h

dict_of-variable :
    (k : String) (environ : Environment)
    → get k (dict_of str environ) ≡ Option.map str (variable k environ)
dict_of-variable k [] = refl
dict_of-variable k ((j, v) ∷ environ) = ground (arith, dict_of-variable k environ)

module _ ⦃platform : Platform⦄ (site : Site) where
  -- Where the library of the process host comes from.
  abbrev pub IsChosen : Environment → String → Type 0
  IsChosen environ library =
      ((is_blank (variable library_variable environ) ≡ true) × (site.built_host ≡ ok library))
      ⊎ ((variable library_variable environ ≡ some library)
          × (site.is_absolute library ≡ true)
          × (site.is_file library ≡ true))

  process_host_library-IsChosen :
      (environ : Environment) (library : String)
      → process_host_library site environ ≡ ok library
      → IsChosen environ library
  unfolding process_host_library
  process_host_library-IsChosen environ library = chosen (variable library_variable environ)
    where
      chosen :
          (o : Option String)
          → (if is_blank o then site.built_host else configured_host site (text_or_empty o))
            ≡ ok library
          → ((is_blank o ≡ true) × (site.built_host ≡ ok library))
            ⊎ ((o ≡ some library)
                × (site.is_absolute library ≡ true)
                × (site.is_file library ≡ true))
      chosen none h = inl (refl, h)
      chosen (some v) h = ground arith

  -- The request is about the order: its journal, package, path, run, turns and worker.
  abbrev pub IsRequestOf : Order → Fields → Type 0
  IsRequestOf order request =
      (get "db_path" request ≡ some (str order.db_path))
      × (get "package_path" request ≡ some (str order.package_path))
      × (get "path_id" request ≡ some order.path_id)
      × (get "run_id" request ≡ some (str order.run_id))
      × (get "max_ticks" request ≡ some (int order.max_ticks))
      × (get "worker_id" request ≡ some (str order.worker_id))

  -- The request has an environment in which the library is the value of `FALA_PROCESS_HOST_LIBRARY`, and every
  -- other variable is as it is in the process.
  abbrev pub IsHosted : Environment → (library : String) → Fields → Type 0
  IsHosted environ library request =
      (host : Fields) × (get "host_environment" request ≡ some (dict host))
      × ((k : String)
          → get k host ≡ (
              if k == library_variable
              then some (str library)
              else Option.map str (variable k environ)))

  get-over :
      (k : String) (order : Order) (base : Fields)
      → (k == "command_overrides") ≡ false
      → (k == "effector_configs") ≡ false
      → (k == "effector_inputs") ≡ false
      → (k == "inputs") ≡ false
      → get k (
          put_mapping "command_overrides"
            (λ args. list (texts args))
            order.command_overrides
            (put_mapping "effector_configs" body_value order.effector_configs (
              put_mapping "effector_inputs" dict order.effector_inputs
                (put_inputs order.inputs base))))
        ≡ get k base
  get-over k order base a b c d =
      get-put_mapping k "command_overrides" _ order.command_overrides _ a
      ∙ get-put_mapping k "effector_configs" _ order.effector_configs _ b
      ∙ get-put_mapping k "effector_inputs" _ order.effector_inputs _ c
      ∙ get-put_inputs k order.inputs _ d

  package_request-IsRequestOf :
      (order : Order) (environ : Environment) (library : String)
      → IsRequestOf order (package_request site order environ library)
  unfolding package_request
  package_request-IsRequestOf order environ library = (
    get-over "db_path" order _ refl refl refl refl,
    get-over "package_path" order _ refl refl refl refl,
    get-over "path_id" order _ refl refl refl refl,
    get-over "run_id" order _ refl refl refl refl,
    get-over "max_ticks" order _ refl refl refl refl,
    get-over "worker_id" order _ refl refl refl refl,
  )

  package_request-IsHosted :
      (order : Order) (environ : Environment) (library : String)
      → IsHosted environ library (package_request site order environ library)
  unfolding package_request
  package_request-IsHosted order environ library = (
    host_environment environ library,
    get-over "host_environment" order _ refl refl refl refl,
    λ k.
        get-put k library_variable _ _
        ∙ ap (λ o. if k == library_variable then some (str library) else o)
            (dict_of-variable k environ),
  )

  turn-outcome :
      {A : Type 0} (lock : Option String) (body : Action Process A) (p : Process)
      (held : List String)
      → site.is_posix ≡ true
      → (execution_turn site.is_posix lock (on_process body) (p, held)).0 ≡ (body p).0
  unfolding execution_turn
  turn-outcome none body p held posix = refl
  turn-outcome (some path) body p held posix = rw posix refl

  called :
      {A : Type 0} (place : Place) (library : Option String) (fn : Action Process A) (p : Process)
      → (with_sqlite_cwd place library fn p).0 ≡ (fn (enter place library p)).0
  unfolding with_sqlite_cwd
  called place library fn p = refl

  -- What `host_run_package` has the native engine do, where the package is there, a library of the process host is
  -- found, the native libraries are ready and the host has locks. The library is the one that was built,
  -- if the environment names none, and otherwise the absolute path of a file that the environment names.
  -- The outcome is what the engine gives for the text of a request, if that is an object, and the exception
  -- of the engine or of the spelling otherwise. The request names the order's journal, package, path, run,
  -- turns and worker, and its environment is that of the process at the time of the call, with the resolved
  -- library under `FALA_PROCESS_HOST_LIBRARY`.
  pub host_run_package-sends :
      (native : Native) (order : Order) (p : Process) (held : List String) (library : String)
      → site.is_file order.package_path ≡ true
      → process_host_library site p.environ ≡ ok library
      → site.ready ≡ ok tt
      → site.is_posix ≡ true
      → IsChosen p.environ library
        × (request : Fields) × IsRequestOf order request
        × IsHosted p.environ (site.resolve library) request
        × ((host_run_package site native order (p, held)).0
            ≡ ((do
              payload ← lift (site.encode request)
              out ← native payload
              lift (package_reply out))
                (enter site.place (some (site.resolve library)) p)).0)
  unfolding host_run_package
  host_run_package-sends native order p held library found chosen ready posix =
      let request = package_request site order p.environ (site.resolve library) in
      (
        process_host_library-IsChosen p.environ library chosen,
        request,
        package_request-IsRequestOf order p.environ (site.resolve library),
        package_request-IsHosted order p.environ (site.resolve library),
        simp (found, chosen, ready)
            (turn-outcome order.execution_lock_path
                (with_sqlite_cwd site.place (some (site.resolve library))
                  (call_package site native request))
                p held posix
              ∙ called site.place (some (site.resolve library)) (call_package site native request)
                  p),
      )
