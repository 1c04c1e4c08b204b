-- ===== src/Build/SourceTests.antt =====
-- A git that clones and checks out, a workshop that makes the library, and an extension that does not load.
use fala.Build.Patched.{Applies, ensure_ember_json_sources_again}
use fala.Build.Toolchain.{prepend_env_path, mojo_toolchain_root, mojo_env, Machine}
use fala.Build.Imports.{loaded, Loader, Session, ensure_native}
use fala.Build.Cache.{prune_stale, build_native_extension, native_cache_dirs, find_native_artifact}
use fala.Build.Settled.{ensure_native_artifact-again}
use fala.Build.Ready.{ensure_sqlite_fire_library-IsReady, IsReady}
use fala.Build.Libraries.{Site, sqlite_fire_library_name}
use fala.Build.SqliteFire.{Vendor, Workshop, ensure_sqlite_fire_library}
use fala.Build.Extension.{Depot, ensure_native_artifact, cached, Yard}
use fala.Python.Outcome.{Outcome, runtime_error, builtin, raise, ok}
use fala.Prelude.{
  String, ◌≡◌, refl, Bool, true, false, Option, none, some, [], ◌∷◌, if◌then◌else◌, ◌==◌, eq_refl,
}
use fala.Prelude.Int.{pos}
use fala.Python.Tests.{echo_platform}
use mathlib.Core.List.{Permᴰ}
use fala.Build.Digest.{Checkout, is_source_hash_path, source_hash}
use fala.Build.Unmoved.{source_hash_stable}
use fala.Build.Sources.{
  checked_run, source_is_pinned, succeeded, ensure_ember_json_sources, ensure_sqlite_fire_sources,
  Tools, Sources, sqlite_fire_revision, ember_json_revision,
}
use fala.Build.Pinned.{ensure_sqlite_fire_sources-IsFetched, ChecksOut, IsFetched}

-- the revision at the head, and whether the patch is there
abbrev pub git_tools : Option String → Tools
git_tools path = record {
  Tree = String × Bool;
  git = path;
  has_git = λ tree. true;
  clone = λ url s. (some ("main", false), pos 0);
  checkout = λ revision s. (some (revision, false), pos 0);
  rev_parse = λ tree. record { returncode = pos 0; stdout = tree.0 };
  check_reverse = λ s. elim s [ none ↦ pos 1 | some tree ↦ if tree.1 then pos 0 else pos 1 ];
  apply_patch = λ s. elim s [ none ↦ (none, pos 1) | some tree ↦ (some (tree.0, true), pos 0) ];
}

abbrev pub tools : Tools
tools = git_tools (some "/usr/bin/git")

tools-ChecksOut : ChecksOut tools
unfolding succeeded
tools-ChecksOut revision s h = ((revision, false), refl, refl, rw (eq_refl revision) refl)

tools-Applies : Applies tools
unfolding succeeded source_is_pinned
tools-Applies none h = absurd (cc h)
tools-Applies (some tree) h = (refl, refl)

-- sources that somebody has moved
abbrev moved : Sources tools
moved = some ("main", false)

ensure_sqlite_fire_sources-IsFetched_example :
    IsFetched tools sqlite_fire_revision moved (ensure_sqlite_fire_sources tools moved)
ensure_sqlite_fire_sources-IsFetched_example =
    ensure_sqlite_fire_sources-IsFetched tools tools-ChecksOut moved

fetched_anew : ensure_sqlite_fire_sources tools moved ≡ (ok tt, some (sqlite_fire_revision, false))
unfolding ensure_sqlite_fire_sources checked_run succeeded
fetched_anew = refl

ember_patched : ensure_ember_json_sources tools none ≡ (ok tt, some (ember_json_revision, true))
unfolding ensure_ember_json_sources checked_run succeeded
ember_patched = refl

ensure_ember_json_sources_again_example :
    (source_is_pinned tools ember_json_revision (some (ember_json_revision, true)) ≡ true)
    × (succeeded (pos 0) ≡ true)
    × (ensure_ember_json_sources tools (some (ember_json_revision, true))
        ≡ (ok tt, some (ember_json_revision, true)))
ensure_ember_json_sources_again_example =
    ensure_ember_json_sources_again tools tools-ChecksOut tools-Applies none
      (some (ember_json_revision, true)) ember_patched

-- `make` writes the library, which is there in a tree that is marked
abbrev pub workshop : Workshop tools
workshop = record {
  has_file = λ name tree. if name == "libsqlite_fire.so" then tree.1 else true;
  make = λ program s. elim s [ none ↦ (none, pos 2) | some tree ↦ (some (tree.0, true), pos 0) ];
  opens = λ path s. true;
}

abbrev pub site : Site
site = record {
  system = "linux";
  root = "/fala";
  skip_native_build = "";
  compiler_variable = "cc";
  which = λ name. some name;
}

abbrev vendor : Vendor tools
vendor = record { sources = moved; loaded = [] }

pub fire_on_linux : sqlite_fire_library_name "linux" ≡ ok "libsqlite_fire.so"
unfolding sqlite_fire_library_name
fire_on_linux = refl

library_made :
    (ensure_sqlite_fire_library tools workshop site vendor).0
    ≡ ok "/fala/vendor/sqlite.fire/native/libsqlite_fire.so"
unfolding ensure_sqlite_fire_library ensure_sqlite_fire_sources sqlite_fire_library_name checked_run
    succeeded
library_made = refl

ensure_sqlite_fire_library-IsReady_example :
    IsReady tools workshop site "libsqlite_fire.so" vendor
      (ensure_sqlite_fire_library tools workshop site vendor)
    × ((ensure_sqlite_fire_library tools workshop site vendor).1.sources
        ≡ (ensure_sqlite_fire_library tools workshop site vendor).1.sources)
ensure_sqlite_fire_library-IsReady_example =
    ensure_sqlite_fire_library-IsReady tools workshop site "libsqlite_fire.so" vendor fire_on_linux

abbrev pub yard : Yard tools tools
yard = record {
  has_native_mojo = true;
  checkout = some "/fala/python/fala";
  installed = "/site/fala";
  digest = λ ember fire. elim fire [ none ↦ "d0" | some tree ↦ "d1" ];
  mojo = ok "/fala/mojo";
  compiled = record { returncode = pos 0; size = some 9; stdout = ""; stderr = "" };
  temp = "_native.hash-d1.1.tmp.so";
}

abbrev pub bare : Depot tools tools
bare = record { ember_json = none; sqlite_fire = none; caches = λ directory. [] }

abbrev pub extension : String
extension = "/fala/python/fala/__mojocache__/_native.hash-d1.so"

artifact_made : (ensure_native_artifact tools tools yard bare).0 ≡ ok extension
unfolding ensure_native_artifact ensure_ember_json_sources ensure_sqlite_fire_sources checked_run
    succeeded cached find_native_artifact native_cache_dirs build_native_extension prune_stale
artifact_made = refl

ensure_native_artifact-again_example :
    (cached tools tools yard (ensure_native_artifact tools tools yard bare).1 ≡ some extension)
    × (ensure_native_artifact tools tools yard (ensure_native_artifact tools tools yard bare).1
        ≡ (ok extension, (ensure_native_artifact tools tools yard bare).1))
ensure_native_artifact-again_example =
    ensure_native_artifact-again tools tools yard bare
      (ensure_native_artifact tools tools yard bare).1 extension
      (λ i. (artifact_made i, (ensure_native_artifact tools tools yard bare).1))

abbrev pub toolchains : Machine
toolchains = record {
  is_file = λ path. true;
  is_dir = λ path. true;
  resolve = λ path. path;
  installation = λ path. path;
  sdk = none;
  which_mojo = λ path. none;
}

abbrev pub loader_that : Outcome (Unit {0}) → Loader
loader_that ends = record {
  system = "linux";
  machine = toolchains;
  root = "/fala";
  environ = [];
  opens = λ path. true;
  has_spec = λ path. true;
  module_from_spec = λ path. ok tt;
  exec_module = λ path. ends;
}

abbrev pub session : Session tools tools
session = record { depot = bare; imported = none; opened = [] }

imported_once :
    (ensure_native tools tools yard (loader_that (ok tt)) session).0 ≡ ok (loaded extension)
unfolding ensure_native ensure_native_artifact ensure_ember_json_sources ensure_sqlite_fire_sources
    checked_run succeeded cached find_native_artifact native_cache_dirs build_native_extension
    prune_stale mojo_env mojo_toolchain_root prepend_env_path
imported_once = refl

-- code that raises while it is imported
abbrev faulty : Loader
faulty = loader_that (raise (builtin runtime_error "no runtime"))

-- two sources of Mojo, and a listing of them in the other order with a leftover of an effector
abbrev listing : Checkout
listing = record {
  package_files = ("/" ∷ "fala" ∷ "_native.mojo" ∷ []) ∷ [];
  sources = ("/" ∷ "mojo" ∷ "fala" ∷ "a.mojo" ∷ []) ∷ ("/" ∷ "mojo" ∷ "fala" ∷ "b.mojo" ∷ []) ∷ [];
  ember_json = [];
  sqlite_fire = [];
  process_host = [];
  root = "/" ∷ [];
  read = λ path. "fn main";
}

abbrev relisted : Checkout
relisted = record listing {
  sources =
      ("/" ∷ "mojo" ∷ "fala" ∷ "b.mojo" ∷ [])
      ∷ ("/" ∷ "mojo" ∷ "fala" ∷ "a.mojo" ∷ [])
      ∷ ("/" ∷ "mojo" ∷ "fala" ∷ ".fala-effector-7" ∷ "c.mojo" ∷ [])
      ∷ [];
}

source_hash_stable_example : source_hash listing ≡ source_hash relisted
unfolding is_source_hash_path
source_hash_stable_example =
    source_hash_stable listing relisted refl (λ p h. refl) (Permᴰ.cons refl (Permᴰ.swap refl refl))
