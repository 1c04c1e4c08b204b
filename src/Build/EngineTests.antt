-- ===== src/Build/EngineTests.antt =====
-- The engine made ready in a bare checkout, and in one whose library of sqlite.fire was built by hand.
use fala.Prelude.{◌≡◌, refl, true, false, some}
use fala.Python.Outcome.{ok}
use fala.Python.Tests.{echo_platform}
use fala.Build.Cache.{find_native_artifact, native_cache_dirs, build_native_extension, prune_stale}
use fala.Build.Libraries.{sqlite_fire_library_name}
use fala.Build.Sources.{
  ensure_sqlite_fire_sources, ensure_ember_json_sources, checked_run, succeeded,
  sqlite_fire_revision,
}
use fala.Build.SqliteFire.{ensure_sqlite_fire_library, is_there}
use fala.Build.Extension.{ensure_native_artifact, cached}
use fala.Build.Toolchain.{mojo_env, mojo_toolchain_root, prepend_env_path}
use fala.Build.Imports.{Session, loaded, ensure_native}
use fala.Build.Imported.{Same}
use fala.Build.Engine.{ensure_engine}
use fala.Build.Engaged.{ensure_engine-again}
use fala.Build.SourceTests.{
  tools, workshop, site, fire_on_linux, yard, bare, extension, loader_that, session,
}

abbrev engaged : Session tools tools
engaged = (ensure_engine tools tools yard (loader_that (ok tt)) workshop site session).1

engaged_once :
    (ensure_engine tools tools yard (loader_that (ok tt)) workshop site session).0
    ≡ ok (loaded extension)
unfolding ensure_engine ensure_sqlite_fire_library ensure_native ensure_native_artifact
    ensure_ember_json_sources ensure_sqlite_fire_sources sqlite_fire_library_name checked_run
    succeeded cached find_native_artifact native_cache_dirs build_native_extension prune_stale
    mojo_env mojo_toolchain_root prepend_env_path
engaged_once = refl

library_kept : is_there workshop "libsqlite_fire.so" engaged.depot.sqlite_fire ≡ true
unfolding ensure_engine ensure_sqlite_fire_library ensure_native ensure_native_artifact
    ensure_ember_json_sources ensure_sqlite_fire_sources sqlite_fire_library_name checked_run
    succeeded cached find_native_artifact native_cache_dirs build_native_extension prune_stale
    mojo_env mojo_toolchain_root prepend_env_path
library_kept = refl

ensure_engine-again_example :
    ((ensure_engine tools tools yard (loader_that (ok tt)) workshop site engaged).0
      ≡ ok (loaded extension))
    × Same tools tools yard
        (loader_that (ok tt))
        (ensure_engine tools tools yard (loader_that (ok tt)) workshop site engaged).1
        engaged
ensure_engine-again_example =
    ensure_engine-again tools tools yard (loader_that (ok tt)) workshop site "libsqlite_fire.so"
      session engaged (loaded extension) fire_on_linux (λ i. (engaged_once i, engaged)) library_kept
      refl

-- sqlite.fire at another revision, with the library built
abbrev built_by_hand : Session tools tools
built_by_hand = record session { depot = record bare { sqlite_fire = some ("main", true) } }

-- The first call opens that library; the second removes it with the sources, and clones them anew.
library_lost :
    (ensure_engine tools tools yard
      (loader_that (ok tt))
      workshop
      site
      built_by_hand).1.depot.sqlite_fire
    ≡ some (sqlite_fire_revision, false)
unfolding ensure_engine ensure_sqlite_fire_library ensure_native ensure_native_artifact
    ensure_ember_json_sources ensure_sqlite_fire_sources sqlite_fire_library_name checked_run
    succeeded cached find_native_artifact native_cache_dirs build_native_extension prune_stale
    mojo_env mojo_toolchain_root prepend_env_path
library_lost = refl
