-- ===== src/Build/Cache.antt =====
-- python/fala/_build.py: the cache of built extensions. A cache directory is the list of the names in it,
-- none of which is a symbolic link; the compiler is what one run of it leaves.
use text.Mathlib.Text.{starts_with}
use fala.Prelude.{
  ℕ, String, ◌<>◌, Bool, false, not, ◌&&◌, Option, none, some, List, [], ◌∷◌, if◌then◌else◌, ◌==◌,
  eqb,
}
use fala.Prelude.Int.{ℤ, pos, eqb_ℤ}
use fala.Python.Outcome.{Outcome, ok, raise, builtin, runtime_error}
use fala.Python.Effect.{Action, lift, ◌>>=◌}
use fala.Python.Text.{truthy, ends_with}
use fala.Host.Directory.{discard}

abbrev pub Names : Type 0
Names = List String

abbrev pub artifact_name : String → String
artifact_name digest = "_native.hash-" <> (digest <> ".so")

abbrev pub under : String → String → String
under directory name = directory <> ("/" <> name)

-- `_native_cache_dirs`: the cache of the checkout, if there is one, and then that of the package
unfoldable pub native_cache_dirs : (checkout : Option String) → (installed : String) → List String
native_cache_dirs none installed = under installed "__mojocache__" ∷ []
native_cache_dirs (some checkout) installed =
    if under installed "__mojocache__" == under checkout "__mojocache__"
    then under checkout "__mojocache__" ∷ []
    else under checkout "__mojocache__" ∷ under installed "__mojocache__" ∷ []

abbrev pub first_file :
    (is_file : (directory name : String) → Bool) → String → List String → Option String
first_file is_file name [] = none
first_file is_file name (directory ∷ rest) =
    if is_file directory name then some (under directory name) else first_file is_file name rest

-- `_find_native_artifact`
unfoldable pub find_native_artifact :
    (is_file : (directory name : String) → Bool) → List String → String → Option String
find_native_artifact is_file directories digest =
    first_file is_file (artifact_name digest) directories

-- `_native.hash-*.so` and `_native.hash-*.tmp.so`
abbrev pub is_artifact : String → Bool
is_artifact name = starts_with name "_native.hash-" && ends_with name ".so"

abbrev pub is_debris : String → Bool
is_debris name = starts_with name "_native.hash-" && ends_with name ".tmp.so"

-- `for old in cache_dir.glob(pattern): … old.unlink()`
abbrev pub without : (String → Bool) → Names → Names
without doomed [] = []
without doomed (x ∷ xs) = let rest = without doomed xs in if doomed x then rest else x ∷ rest

-- `_prune_stale_native_artifacts`
unfoldable pub prune_stale : (keep : String) → Names → Names
prune_stale keep names =
    without (λ x. is_debris x && not (x == keep))
      (without (λ x. is_artifact x && (not (x == keep) && not (ends_with x ".tmp.so"))) names)

-- What a run of the compiler leaves: its exit code and output, and the size of the temporary file if that
-- is still there.
pub record Compiled : Type 0 where
  pub returncode : ℤ
  pub size : Option ℕ
  pub stdout : String
  pub stderr : String

abbrev pub is_built : Compiled → Bool
is_built c = eqb_ℤ c.returncode (pos 0) && elim c.size [ none ↦ false | some n ↦ not (eqb n 0) ]

-- `os.replace(temp_path, so_path)`
abbrev pub replace_name : (temp so : String) → Names → Names
replace_name temp so names = so ∷ discard so (discard temp names)

abbrev pub published : (temp so : String) → Compiled → Action Names (Unit {0})
published temp so c names = if is_built c then (ok tt, replace_name temp so names) else (
  raise (
      builtin runtime_error
        ("fala native build failed:\n" <> (if truthy c.stderr then c.stderr else c.stdout))),
  discard temp names,
)

-- `_build_native_extension`: `mojo` is the compiler's path, or what `_mojo_bin` raises, and `temp` the
-- name of the temporary file.
unfoldable pub build_native_extension :
    (mojo : Outcome String) (temp so : String) → Compiled → Action Names (Unit {0})
build_native_extension mojo temp so c =
    lift mojo >>= λ path. λ names. published temp so c (temp ∷ names)
