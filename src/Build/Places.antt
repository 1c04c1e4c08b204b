-- ===== src/Build/Places.antt =====
-- python/fala/_build.py: where the sources are: `repo_root`, `_checkout_host_package` and what stands on
-- them. A path is a text, and the environment, the directories and the files are parameters.
use fala.Prelude.{String, Bool, Option, none, some, List, [], ◌∷◌, if◌then◌else◌}
use fala.Python.Outcome.{Outcome, ok, raise, builtin, runtime_error}
use fala.Python.Text.{truthy}
use fala.Build.Cache.{under}

-- The process and the file system, as the search for the sources sees them.
pub record Terrain : Type 0 where
  -- `os.environ.get("FALA_HOME")`
  pub home : Option String
  -- `_PACKAGE_DIR`, `_PACKAGE_DIR.parents[2]`, `_PACKAGE_DIR.parent` and `Path.cwd()`
  pub package_dir : String
  pub grandparent : String
  pub parent : String
  pub cwd : String
  -- `Path(text).expanduser().resolve()`, and `path.resolve()`
  pub expanded : String → String
  pub resolve : String → String
  pub is_dir : String → Bool
  pub is_file : String → Bool

abbrev pub no_sources : String
no_sources = "Cannot locate Fala Mojo sources. Set FALA_HOME to the Fala checkout."

module _ (terrain : Terrain) where
  open terrain use {home, package_dir, grandparent, parent, cwd, expanded, resolve, is_dir, is_file}

  abbrev pub has_sources : String → Bool
  has_sources root = is_dir (under (under root "mojo") "fala")

  -- the loop of `repo_root`
  abbrev pub first_root : List String → Outcome String
  first_root [] = raise (builtin runtime_error no_sources)
  first_root (candidate ∷ rest) =
      if has_sources candidate then ok (resolve candidate) else first_root rest

  abbrev pub candidates : List String
  candidates = package_dir ∷ grandparent ∷ parent ∷ cwd ∷ []

  abbrev pub root_from : Option String → Outcome String
  root_from none = first_root candidates
  root_from (some text) = if truthy text then ok (expanded text) else first_root candidates

  -- `repo_root`
  unfoldable pub repo_root : Outcome String
  repo_root = root_from home

  -- `_checkout_host_package`
  unfoldable pub checkout_host_package : String → Option String
  checkout_host_package root =
      let candidate = under (under root "python") "fala" in
      if is_file (under candidate "_native.mojo") then some candidate else none

  abbrev pub package_or : Option String → String
  package_or none = package_dir
  package_or (some checkout) = checkout

  -- `_native_source_package`
  unfoldable pub native_source_package : String → String
  unfolding checkout_host_package
  native_source_package root = package_or (checkout_host_package root)

  -- `_native_mojo_path`
  unfoldable pub native_mojo_path : String → String
  unfolding native_source_package
  native_mojo_path root = under (native_source_package root) "_native.mojo"
