-- ===== src/Build/Imports.antt =====
-- python/fala/_build.py: `ensure_native`, which builds the extension and imports it, and
-- `_preload_mojo_runtime`. `sys.modules` holds the extension once `module_from_spec`, which runs its
-- `PyInit__native`, has made the module; it is ready when `exec_module` has returned too.
use fala.Prelude.{
  String, ◌<>◌, Bool, true, false, Option, none, some, List, ◌∷◌, if◌then◌else◌, ◌==◌,
}
use fala.Python.Outcome.{Outcome, ok, raise, builtin, runtime_error, os_error}
use fala.Python.Effect.{Action, ◌>>=◌, ◌>>◌}
use fala.Python.Json.{Platform}
use fala.Sdk.Effector.{Environment}
use fala.Build.Cache.{under}
use fala.Build.Sources.{Tools}
use fala.Build.Extension.{Depot, Yard, ensure_native_artifact}
use fala.Build.Toolchain.{Machine, mojo_env, mojo_toolchain_root}

pub record Imported : Type 0 where
  pub path : String
  pub ready : Bool

-- The sources and caches, `sys.modules["fala._native"]`, and the libraries that the process has opened.
pub record Session (ember fire : Tools) : Type 0 where
  pub depot : Depot ember fire
  pub imported : Option Imported
  pub opened : List String

-- What the import finds: the platform, the toolchains, the environment, which libraries can be opened,
-- which files have a loader, and how the making and the execution of a module end.
pub record Loader : Type 0 where
  pub system : String
  pub machine : Machine
  pub root : String
  pub environ : Environment
  pub opens : String → Bool
  pub has_spec : String → Bool
  pub module_from_spec : String → Outcome (Unit {0})
  pub exec_module : String → Outcome (Unit {0})

abbrev pub loading : String → Imported
loading path = record { path = path; ready = false }

abbrev pub loaded : String → Imported
loaded path = record { path = path; ready = true }

module _ ⦃platform : Platform⦄ (ember fire : Tools) (yard : Yard ember fire) (loader : Loader) where
  open loader use {system, machine, root, environ, opens, has_spec, module_from_spec, exec_module}

  abbrev pub at_depot : Action (Depot ember fire) String → Action (Session ember fire) String
  at_depot body s = let (r, t) = body s.depot in (r, record s { depot = t })

  -- one turn of the loop of `_preload_mojo_runtime`
  unfoldable pub preload : String → Action (Session ember fire) (Unit {0})
  preload library s =
      if machine.is_file library
      then if opens library
        then (ok tt, record s { opened = library ∷ s.opened })
        else (raise (builtin os_error ""), s)
      else (ok tt, s)

  abbrev pub shared_library : (toolchain stem : String) → String
  shared_library toolchain stem =
      under (under toolchain "lib") (stem <> (if system == "darwin" then ".dylib" else ".so"))

  -- `_preload_mojo_runtime`
  unfoldable pub preload_mojo_runtime : String → Action (Session ember fire) (Unit {0})
  preload_mojo_runtime toolchain = do
    preload (shared_library toolchain "libKGENCompilerRTShared")
    preload (shared_library toolchain "libAsyncRTMojoBindings")

  abbrev pub preload_toolchain : Option String → Action (Session ember fire) (Unit {0})
  preload_toolchain none s = (ok tt, s)
  preload_toolchain (some toolchain) s = preload_mojo_runtime toolchain s

  -- `spec.loader.exec_module(mod)`
  abbrev pub executed :
      String → Outcome (Unit {0}) → Session ember fire → Outcome Imported × Session ember fire
  executed path (ok _) s = (ok (loaded path), record s { imported = some (loaded path) })
  executed path (raise e) s = (raise e, s)

  -- from `mod = importlib.util.module_from_spec(spec)` on
  abbrev pub from_spec : (path : String) → Outcome (Unit {0}) → Action (Session ember fire) Imported
  from_spec path (raise e) s = (raise e, s)
  from_spec path (ok _) s =
      executed path (exec_module path) (record s { imported = some (loading path) })

  -- from `existing = sys.modules.get("fala._native")` on
  abbrev pub import_from : Option Imported → (path : String) → Action (Session ember fire) Imported
  import_from (some existing) path s = (ok existing, s)
  import_from none path s =
      if has_spec path
      then from_spec path (module_from_spec path) s
      else (raise (builtin runtime_error ("cannot load " <> path)), s)

  unfoldable pub import_native : (path : String) → Action (Session ember fire) Imported
  import_native path s = import_from s.imported path s

  abbrev pub toolchain_root : Option String
  toolchain_root = mojo_toolchain_root machine (mojo_env machine root environ) root

  -- `ensure_native`
  unfoldable pub ensure_native : Action (Session ember fire) Imported
  unfolding preload preload_mojo_runtime import_native
  ensure_native = do
    path ← at_depot (ensure_native_artifact ember fire yard)
    preload_toolchain toolchain_root
    import_native path
