-- ===== src/Host/Directory.antt =====
-- python/fala/host.py: `_with_sqlite_cwd`, on the parts of the process that it changes. Its lock lets
-- one call in at a time; what the operating system refuses is not modelled.
use fala.Prelude.{String, Bool, true, not, Option, none, some, List, [], ◌∷◌, if◌then◌else◌, ◌==◌}
use fala.Python.Effect.{Action, run_finally}
use fala.Python.Text.{truthy}
use fala.Python.Json.{Platform}
use fala.Sdk.Effector.{Environment, variable}

-- The working directory, `os.environ`, and the temporary directories that exist.
pub record Process : Type 0 where
  pub cwd : String
  pub environ : Environment
  pub roots : List String

-- What is found outside: the directory of the SQLite library and whether it is there, and the name of
-- the next temporary directory.
pub record Place : Type 0 where
  pub sqlite_cwd : String
  pub is_dir : Bool
  pub fresh_root : String

-- `os.environ.pop(name, None)`
abbrev pub unset : String → Environment → Environment
unset k [] = []
unset k ((j, v) ∷ env) = let rest = unset k env in if k == j then rest else (j, v) ∷ rest

-- `os.environ[name] = value`
abbrev pub assign : String → String → Environment → Environment
assign k v [] = (k, v) ∷ []
assign k v ((j, w) ∷ env) = if k == j then (j, v) ∷ env else (j, w) ∷ assign k v env

-- `if previous is None: pop else: assign`
abbrev pub put_back : String → Option String → Environment → Environment
put_back k none env = unset k env
put_back k (some v) env = assign k v env

abbrev pub discard : String → List String → List String
discard x [] = []
discard x (y ∷ ys) = let rest = discard x ys in if x == y then rest else y ∷ rest

abbrev pub root_variable : String
root_variable = "FALA_EFFECTOR_ROOT"

abbrev pub library_variable : String
library_variable = "FALA_PROCESS_HOST_LIBRARY"

module _ ⦃platform : Platform⦄ where
  -- `previous is None or not previous.strip()`
  abbrev pub is_blank : Option String → Bool
  is_blank none = true
  is_blank (some v) = not (truthy (platform.strip v))

  abbrev pub install_root : Place → Process → Process
  install_root place p =
      if is_blank (variable root_variable p.environ)
      then record p {
        environ = assign root_variable place.fresh_root p.environ;
        roots = place.fresh_root ∷ p.roots;
      }
      else p

  -- the path of the library is resolved already
  abbrev pub install_library : Option String → Option String → Process → Process
  install_library previous none p = p
  install_library previous (some library) p =
      if is_blank previous
      then record p { environ = assign library_variable library p.environ }
      else p

  -- the `try`, up to the call of `fn`
  unfoldable pub enter : Place → Option String → Process → Process
  enter place library p =
      install_library (variable library_variable p.environ) library
        (install_root place (if place.is_dir then record p { cwd = place.sqlite_cwd } else p))

  -- the `finally`, given the process before the `try`
  unfoldable pub leave : Place → Process → Process → Process
  leave place before p = record {
    cwd = before.cwd;
    environ =
        put_back root_variable (variable root_variable before.environ)
          (put_back library_variable (variable library_variable before.environ) p.environ);
    roots =
        if is_blank (variable root_variable before.environ)
        then discard place.fresh_root p.roots
        else p.roots;
  }

  -- `_with_sqlite_cwd`
  unfoldable pub with_sqlite_cwd :
      {A : Type 0} → Place → Option String → Action Process A → Action Process A
  unfolding enter leave
  with_sqlite_cwd place library fn before =
      run_finally (leave place before) fn (enter place library before)
