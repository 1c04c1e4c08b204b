-- ===== src/Build/Toolchain.antt =====
-- python/fala/_build.py: `_mojo_env`, `_mojo_toolchain_root`, `_prepend_env_path` and `_mojo_bin`, over an
-- environment that is handed in. The `mojo` package, if it can be imported, is a parameter.
use fala.Prelude.{String, ◌<>◌, Bool, ◌&&◌, Option, none, some, List, [], ◌∷◌, if◌then◌else◌, is_in}
use fala.Python.Outcome.{Outcome, ok, raise, builtin, runtime_error}
use fala.Python.Text.{truthy, split}
use fala.Sdk.Effector.{Environment, variable}
use fala.Host.Directory.{assign}
use fala.Build.Cache.{under}

-- What the search finds outside.
pub record Machine : Type 0 where
  pub is_file : String → Bool
  pub is_dir : String → Bool
  -- `Path(p).expanduser().resolve()`, and the parent of its parent
  pub resolve : String → String
  pub installation : String → String
  -- the environment and the root that the `mojo` package has, if there is one
  pub sdk : Option (Environment × String)
  -- `shutil.which("mojo", path=…)`
  pub which_mojo : Option String → Option String

abbrev pub driver_variable : String
driver_variable = "MODULAR_MOJO_MAX_DRIVER_PATH"

abbrev pub package_variable : String
package_variable = "MODULAR_MOJO_MAX_PACKAGE_ROOT"

-- `env.setdefault(name, value)`
abbrev pub set_default : String → String → Environment → Environment
set_default k v env = elim (variable k env) [ none ↦ assign k v env | some w ↦ env ]

-- `sdk_env.update(env)`
abbrev pub update : Environment → Environment → Environment
update env [] = env
update env ((k, v) ∷ rest) = update (assign k v env) rest

abbrev pub text_or_empty : Option String → String
text_or_empty none = ""
text_or_empty (some s) = s

-- `env.get(name)`, unless it is empty
abbrev pub filled : Option String → Option String
filled none = none
filled (some s) = if truthy s then some s else none

abbrev pub or_else : Option String → Option String → Option String
or_else none y = y
or_else (some x) y = some x

abbrev pub without_empty : List String → List String
without_empty [] = []
without_empty (s ∷ ss) = let rest = without_empty ss in if truthy s then s ∷ rest else rest

abbrev pub root_toolchain : String → String
root_toolchain root = under (under (under root ".pixi") "envs") "default"

abbrev pub mojo_of : String → String
mojo_of toolchain = under (under toolchain "bin") "mojo"

-- one key of `_prepend_env_path`
abbrev pub prepend_to : (prefix key : String) → Environment → Environment
prepend_to prefix key env =
    let current = text_or_empty (variable key env) in
    if is_in prefix (without_empty (split 58 current))
    then env
    else assign key (prefix <> (if truthy current then ":" <> current else "")) env

abbrev pub found_mojo : Option String → Outcome String
found_mojo (some p) = ok p
found_mojo none = raise (
    builtin runtime_error
      "mojo executable not found; set FALA_HOME to a Fala checkout and run `mise exec -- pixi install` there")

module _ (machine : Machine) where
  -- `_prepend_env_path`
  unfoldable pub prepend_env_path : Environment → String → Environment
  prepend_env_path env path =
      if machine.is_dir path
      then prepend_to path "LD_LIBRARY_PATH" (prepend_to path "DYLD_LIBRARY_PATH" env)
      else env

  abbrev pub first_toolchain : List (Option String) → Option String
  first_toolchain [] = none
  first_toolchain (none ∷ rest) = first_toolchain rest
  first_toolchain (some candidate ∷ rest) =
      if machine.is_file (mojo_of candidate) then some candidate else first_toolchain rest

  abbrev pub mapped : (String → String) → Option String → Option String
  mapped f none = none
  mapped f (some s) = some (f s)

  -- `_mojo_toolchain_root`
  unfoldable pub mojo_toolchain_root : Environment → String → Option String
  mojo_toolchain_root env root = first_toolchain (
      mapped machine.installation
        (or_else (filled (variable driver_variable env)) (filled (variable "MOJO" env)))
      ∷ mapped machine.resolve (filled (variable package_variable env))
      ∷ mapped machine.resolve (filled (variable "CONDA_PREFIX" env))
      ∷ some (root_toolchain root)
      ∷ [])

  abbrev pub with_imports :
      (String → String → Environment → Environment) → String → Environment → Environment
  with_imports set toolchain env =
      if machine.is_dir (under (under toolchain "lib") "mojo")
      then set "MODULAR_MOJO_MAX_IMPORT_PATH" (under (under toolchain "lib") "mojo") env
      else env

  -- `env["PATH"]` and the libraries
  abbrev pub with_paths : String → Environment → Environment
  with_paths toolchain env =
      prepend_env_path
        (assign "PATH" (under toolchain "bin" <> (":" <> text_or_empty (variable "PATH" env))) env)
        (under toolchain "lib")

  abbrev pub toolchain_env :
      (String → String → Environment → Environment) → String → Environment → Environment
  toolchain_env set toolchain env = with_paths toolchain (
      with_imports set toolchain (
        set driver_variable (mojo_of toolchain)
          (set package_variable toolchain (set "MODULAR_MAX_PACKAGE_ROOT" toolchain env))))

  abbrev pub found_env : Option String → Environment → Environment
  found_env none env = env
  found_env (some toolchain) env = toolchain_env set_default toolchain env

  -- without a toolchain under the root
  abbrev pub discovered_env : Option (Environment × String) → String → Environment → Environment
  discovered_env (some (sdk_env, package_root)) root env =
      set_default package_variable package_root (update sdk_env env)
  discovered_env none root env = found_env (mojo_toolchain_root env root) env

  -- `_mojo_env`
  unfoldable pub mojo_env : String → Environment → Environment
  mojo_env root env =
      if machine.is_file (mojo_of (root_toolchain root))
      then toolchain_env assign (root_toolchain root) env
      else discovered_env machine.sdk root env

  -- a variable that names a file
  abbrev pub file_named : Option String → Option String
  file_named none = none
  file_named (some p) = if truthy p && machine.is_file p then some p else none

  -- `_mojo_bin`
  unfoldable pub mojo_bin : Environment → Outcome String
  mojo_bin env = found_mojo (
      or_else (file_named (variable driver_variable env)) (
        or_else (file_named (variable "MOJO" env))
          (filled (machine.which_mojo (variable "PATH" env)))))
