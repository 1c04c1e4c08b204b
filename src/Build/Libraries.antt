-- ===== src/Build/Libraries.antt =====
-- python/fala/_build.py: the two C libraries, `ensure_sqlite_fire_library` and
-- `ensure_process_host_library`. The disk says of each path whether a file is there, and the time at
-- which it was changed; the tools are what they leave on the disk. A message is kept up to the first
-- name that it quotes.
use text.Mathlib.Text.{starts_with}
use fala.Prelude.{
  ℕ, String, ◌<>◌, Bool, false, not, ◌||◌, Option, none, some, is_some, List, [], ◌∷◌,
  if◌then◌else◌, ◌==◌, leb, is_in,
}
use fala.Prelude.Int.{ℤ, pos, eqb_ℤ}
use fala.Python.Outcome.{Outcome, ok, raise, Error, builtin, runtime_error}
use fala.Python.Effect.{Action, lift, gets, ◌>>=◌, ◌>>◌}
use fala.Build.Cache.{under}

-- The time of each file.
abbrev pub Disk : Type 0
Disk = String → Option ℕ

abbrev pub change : String → Option ℕ → Disk → Disk
change path time disk x = if x == path then time else disk x

-- The name of a shared library on a platform, after `lib`.
abbrev library_name : (stem refusal system : String) → Outcome String
library_name stem refusal system =
    if system == "darwin"
    then ok (stem <> ".dylib")
    else if starts_with system "linux"
    then ok (stem <> ".so")
    else raise (builtin runtime_error (refusal <> system))

unfoldable pub sqlite_fire_library_name : String → Outcome String
sqlite_fire_library_name system =
    library_name "libsqlite_fire"
      "fala durable SQLite host is POSIX-only (macOS/Linux); unsupported platform: " system

unfoldable pub process_host_library_name : String → Outcome String
process_host_library_name system =
    library_name "libfala_process_host"
      "fala subprocess host is POSIX-only (macOS/Linux); unsupported platform: " system

-- `FALA_SKIP_NATIVE_BUILD`, stripped and in lower case
abbrev pub skips_native_build : String → Bool
skips_native_build value = is_in value ("1" ∷ "true" ∷ "yes" ∷ "on" ∷ [])

-- What the build of a library finds around it. `which` is `shutil.which`.
pub record Site : Type 0 where
  pub system : String
  pub root : String
  pub skip_native_build : String
  pub compiler_variable : String
  pub which : String → Option String

-- `which(CC or cc) or which("clang") or which("gcc")`
abbrev first_found : (String → Option String) → List String → Option String
first_found which [] = none
first_found which (name ∷ names) = elim (which name) [
  | some path ↦ some path
  | none ↦ first_found which names
]

abbrev pub c_compiler : Site → Option String
c_compiler site = first_found site.which (site.compiler_variable ∷ "clang" ∷ "gcc" ∷ [])

abbrev pub failure : String → Outcome (Unit {0})
failure message = raise (builtin runtime_error message)

-- `if not found: raise`
abbrev pub needed : {A : Type 0} → Option A → String → Outcome A
needed none message = raise (builtin runtime_error message)
needed (some a) message = ok a

abbrev pub native_source : Site → String → String
native_source site name = under (under (under site.root "mojo") "fala") name

abbrev pub later_of : ℕ → ℕ → ℕ
later_of a b = if leb a b then b else a

-- `lib_path.is_file() and lib_path.stat().st_mtime_ns >= newest_source`
abbrev pub is_current : Option ℕ → ℕ → Bool
is_current none newest = false
is_current (some time) newest = leb newest time

-- What the C compiler leaves at the temporary path, and its exit code.
pub record Compiled : Type 0 where
  pub returncode : ℤ
  pub written : Option ℕ

abbrev pub library_path : Site → String → String
library_path site name = under (under (under (under site.root "mojo") "fala") "native") name

abbrev pub build_failure : Error
build_failure = builtin runtime_error "fala: failed to build the subprocess host ("

module _ (site : Site) (compile : String → Compiled) where
  abbrev pub install_library : (library temp : String) → Compiled → Disk → Outcome String × Disk
  install_library library temp c disk =
      if not (eqb_ℤ c.returncode (pos 0)) || not (is_some c.written)
      then (raise build_failure, change temp none disk)
      else (ok library, change library c.written (change temp none disk))

  -- the build: `.tmp` is removed, written by the compiler, and moved over the library
  abbrev pub build_process_host : String → Action Disk String
  build_process_host library = do
    lift (
        if skips_native_build site.skip_native_build
        then failure "fala subprocess path requires a current "
        else ok tt)
    cc ← lift (
        needed (c_compiler site)
          "fala: cannot build the subprocess host: no C compiler (`cc`/`clang`/`gcc`) on PATH")
    install_library library (library <> ".tmp") (compile cc)

  abbrev pub refresh_process_host : (library : String) → (newest : ℕ) → Action Disk String
  refresh_process_host library newest disk =
      if is_current (disk library) newest
      then (ok library, disk)
      else build_process_host library disk

  -- `ensure_process_host_library`
  unfoldable pub ensure_process_host_library : Action Disk String
  ensure_process_host_library = do
    name ← lift (process_host_library_name site.system)
    source ← gets (λ disk. disk (native_source site "native_process_host.c"))
    header ← gets (λ disk. disk (native_source site "native_process_host.h"))
    changed ← lift (needed source "Fala process-host sources missing under ")
    header_changed ← lift (needed header "Fala process-host sources missing under ")
    refresh_process_host (library_path site name) (later_of changed header_changed)
