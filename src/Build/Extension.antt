-- ===== src/Build/Extension.antt =====
-- python/fala/_build.py: the whole of `_ensure_native_artifact` for one caller, and `ensure_native`.
-- Hashing the sources is the parameter `digest`; nobody else changes the caches while the caller runs.
use fala.Prelude.{String, Bool, not, Option, none, some, if◌then◌else◌, ◌==◌, is_in}
use fala.Python.Outcome.{Outcome, ok, raise, builtin, runtime_error}
use fala.Python.Effect.{Action, lift, modify, ◌>>◌}
use fala.Python.Json.{Platform}
use fala.Build.Cache.{
  Names, Compiled, artifact_name, under, native_cache_dirs, find_native_artifact, prune_stale,
  build_native_extension,
}
use fala.Build.Sources.{Tools, Sources, ensure_ember_json_sources, ensure_sqlite_fire_sources}

-- The sources below `vendor`, and the names in each cache directory.
pub record Depot (ember fire : Tools) : Type 0 where
  pub ember_json : Sources ember
  pub sqlite_fire : Sources fire
  pub caches : String → Names

-- What a build finds around it.
pub record Yard (ember fire : Tools) : Type 0 where
  -- `native_mojo.is_file()`
  pub has_native_mojo : Bool
  -- the package in the checkout, if it is complete, and the one that is installed
  pub checkout : Option String
  pub installed : String
  -- `_source_hash`, of the sources that are there
  pub digest : Sources ember → Sources fire → String
  -- `_mojo_bin`, what the compiler leaves, and the name of its temporary file
  pub mojo : Outcome String
  pub compiled : Compiled
  pub temp : String

abbrev pub cache_of : Option String → String → String
cache_of none installed = under installed "__mojocache__"
cache_of (some home) installed = under home "__mojocache__"

abbrev pub with_names : String → Names → (String → Names) → String → Names
with_names directory names caches d = if d == directory then names else caches d

module _ ⦃platform : Platform⦄ (ember fire : Tools) (yard : Yard ember fire) where
  open yard use {has_native_mojo, checkout, installed, digest, mojo, compiled, temp}

  abbrev pub digest_of : Depot ember fire → String
  digest_of s = digest s.ember_json s.sqlite_fire

  -- `_find_native_artifact(active_root, _source_hash(active_root))`
  unfoldable pub cached : Depot ember fire → Option String
  cached s =
      find_native_artifact (λ directory name. is_in name (s.caches directory))
        (native_cache_dirs checkout installed) (digest_of s)

  abbrev pub at_ember : Action (Sources ember) (Unit {0}) → Action (Depot ember fire) (Unit {0})
  at_ember body s = let (r, t) = body s.ember_json in (r, record s { ember_json = t })

  abbrev pub at_fire : Action (Sources fire) (Unit {0}) → Action (Depot ember fire) (Unit {0})
  at_fire body s = let (r, t) = body s.sqlite_fire in (r, record s { sqlite_fire = t })

  abbrev pub at_cache : String → Action Names (Unit {0}) → Action (Depot ember fire) (Unit {0})
  at_cache directory body s =
      let (r, t) = body (s.caches directory) in
      (r, record s { caches = with_names directory t s.caches })

  -- under the lock: the build, unless the artifact is there now, and the pruning
  unfoldable pub locked : (so : String) → Action Names (Unit {0})
  locked so names =
      if is_in so names
      then (ok tt, prune_stale so names)
      else (build_native_extension mojo temp so compiled >> modify (prune_stale so)) names

  -- from the missing artifact on
  unfoldable pub build_artifact : Action (Depot ember fire) String
  unfolding locked
  build_artifact s =
      let directory = cache_of checkout installed in
      let so = artifact_name (digest_of s) in
      if is_in so (s.caches directory)
      then (ok (under directory so), s)
      else (at_cache directory (locked so) >> lift (ok (under directory so))) s

  abbrev pub or_else_do :
      Option String → Action (Depot ember fire) String → Action (Depot ember fire) String
  or_else_do (some path) body = lift (ok path)
  or_else_do none body = body

  -- the second look, once the sources are there
  abbrev pub find_or_build : Action (Depot ember fire) String
  find_or_build s = or_else_do (cached s) build_artifact s

  unfoldable pub fetch_and_build : Action (Depot ember fire) String
  fetch_and_build = do
    at_ember (ensure_ember_json_sources ember)
    at_fire (ensure_sqlite_fire_sources fire)
    find_or_build

  -- `if not native_mojo.is_file(): raise`, and the first look
  abbrev pub guarded : (there : Bool) → Action (Depot ember fire) String
  guarded there s =
      if not there
      then (raise (builtin runtime_error "missing "), s)
      else or_else_do (cached s) fetch_and_build s

  -- `_ensure_native_artifact`
  unfoldable pub ensure_native_artifact : Action (Depot ember fire) String
  unfolding build_artifact fetch_and_build
  ensure_native_artifact = guarded has_native_mojo
