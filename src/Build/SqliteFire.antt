-- ===== src/Build/SqliteFire.antt =====
-- python/fala/_build.py: `ensure_sqlite_fire_library`. The library is a file among the sources of
-- sqlite.fire. What `make` leaves of them and which libraries can be opened are parameters; a message is
-- kept up to the first name that it quotes.
use fala.Prelude.{String, Bool, false, not, ◌||◌, Option, none, some, List, ◌∷◌, if◌then◌else◌}
use fala.Prelude.Int.{ℤ}
use fala.Python.Outcome.{ok, raise, builtin, runtime_error, os_error}
use fala.Python.Effect.{Action, lift, ◌>>=◌, ◌>>◌}
use fala.Python.Json.{Platform}
use fala.Build.Cache.{under}
use fala.Build.Libraries.{
  Site, sqlite_fire_library_name, skips_native_build, c_compiler, failure, needed,
}
use fala.Build.Sources.{Tools, Sources, succeeded, ensure_sqlite_fire_sources}

-- What is found of the sources and done with them: the files below `native`, `make`, and `ctypes.CDLL`.
pub record Workshop (tools : Tools) : Type 0 where
  pub has_file : (name : String) → tools.Tree → Bool
  pub make : (program : String) → Option tools.Tree → Option tools.Tree × ℤ
  pub opens : (path : String) → Option tools.Tree → Bool

-- The sources, and the libraries that the process has opened, the last one first.
pub record Vendor (tools : Tools) : Type 0 where
  pub sources : Option tools.Tree
  pub loaded : List String

-- `sqlite_fire_library_path`
abbrev pub sqlite_fire_path : Site → String → String
sqlite_fire_path site name =
    under (under (under (under site.root "vendor") "sqlite.fire") "native") name

abbrev pub library_missing : String
library_missing = "fala durable path requires "

abbrev pub make_missing : String
make_missing = "fala: cannot build sqlite.fire native library: `make` not found on PATH. "

abbrev pub compiler_missing : String
compiler_missing =
    "fala: cannot build sqlite.fire native library: no C compiler (`cc`/`clang`/`gcc`) on PATH. "

-- `(native_dir / name).is_file()`
abbrev pub is_there : {tools : Tools} → Workshop tools → String → Option tools.Tree → Bool
is_there workshop name none = false
is_there workshop name (some tree) = workshop.has_file name tree

module _ ⦃platform : Platform⦄ (tools : Tools) (workshop : Workshop tools) (site : Site) where
  open workshop use {make, opens}

  -- `ctypes.CDLL(str(lib_path), mode=ctypes.RTLD_GLOBAL)`
  unfoldable pub load : String → Action (Vendor tools) String
  load path s =
      if opens path s.sources
      then (ok path, record s { loaded = path ∷ s.loaded })
      else (raise (builtin os_error ""), s)

  -- code that changes the sources
  abbrev pub at_sources : {A : Type 0} → Action (Sources tools) A → Action (Vendor tools) A
  at_sources body s = let (r, t) = body s.sources in (r, record s { sources = t })

  abbrev pub expect_file : (name message : String) → Action (Vendor tools) (Unit {0})
  expect_file name message s =
      (if is_there workshop name s.sources then ok tt else failure message, s)

  abbrev pub run_make : (program name : String) → Action (Vendor tools) (Unit {0})
  run_make program name s =
      let (t, returncode) = make program s.sources in
      (
        (if not (succeeded returncode) || not (is_there workshop name t)
            then failure "fala: failed to build sqlite.fire native library ("
            else ok tt),
        record s { sources = t },
      )

  -- from the sources to the library
  unfoldable pub build_sqlite_fire : String → Action (Vendor tools) String
  build_sqlite_fire name = do
    at_sources (ensure_sqlite_fire_sources tools)
    expect_file "Makefile" "sqlite.fire Makefile missing at "
    expect_file "sqlite_fire.c" "sqlite.fire C sources missing under "
    program ← lift (needed (site.which "make") make_missing)
    cc ← lift (needed (c_compiler site) compiler_missing)
    run_make program name
    load (sqlite_fire_path site name)

  abbrev pub open_or_build : String → Action (Vendor tools) String
  open_or_build name s =
      if is_there workshop name s.sources
      then load (sqlite_fire_path site name) s
      else if skips_native_build site.skip_native_build
      then (raise (builtin runtime_error library_missing), s)
      else build_sqlite_fire name s

  -- `ensure_sqlite_fire_library`
  unfoldable pub ensure_sqlite_fire_library : Action (Vendor tools) String
  unfolding load build_sqlite_fire
  ensure_sqlite_fire_library = do
    name ← lift (sqlite_fire_library_name site.system)
    open_or_build name
