-- ===== src/Lifecycle/DeskTests.antt =====
-- A call of the native journal from a bare checkout on.
use fala.Prelude.{◌≡◌, refl, true, some, none, [], String, Option, if◌then◌else◌, ◌==◌}
use fala.Python.Outcome.{ok}
use fala.Python.Value.{null, str, field, end}
use fala.Python.Tests.{echo_platform}
use fala.Python.Json.{escape, dumps}
use fala.Host.Directory.{Place, with_sqlite_cwd}
use fala.Build.Cache.{find_native_artifact, native_cache_dirs, build_native_extension, prune_stale}
use fala.Build.Libraries.{sqlite_fire_library_name}
use fala.Build.Sources.{
  ensure_sqlite_fire_sources, ensure_ember_json_sources, checked_run, succeeded,
}
use fala.Build.SqliteFire.{ensure_sqlite_fire_library}
use fala.Build.Extension.{ensure_native_artifact, cached}
use fala.Build.Toolchain.{mojo_env, mojo_toolchain_root, prepend_env_path}
use fala.Build.Imports.{Imported, ensure_native}
use fala.Build.Engine.{ensure_engine}
use fala.Build.SourceTests.{tools, workshop, site, fire_on_linux, yard, loader_that, session}
use fala.Lifecycle.Calls.{Call}
use fala.Lifecycle.Native.{native_call}
use fala.Lifecycle.Desk.{Desk, Operation, native_call_from}
use fala.Lifecycle.Working.{IsWorked, native_call_from-IsWorked}

abbrev desk : Desk tools tools
desk = record { session = session; process = record { cwd = "/home"; environ = []; roots = [] } }

abbrev vendor_place : Place
vendor_place = record { sqlite_cwd = "/vendor"; is_dir = true; fresh_root = "/tmp/root" }

-- an extension with one operation, which returns None
abbrev operations : Imported → String → Option Operation
operations native name = if name == "ensure_journal" then some (λ payload p. (ok null, p)) else none

abbrev ensuring : Call
ensuring = record { operation = "ensure_journal"; request = field "db_path" (str "db") end }

abbrev desk_after : Desk tools tools
desk_after =
    (native_call_from tools tools yard (loader_that (ok tt)) workshop site vendor_place operations
      ensuring desk).1

worked :
    (native_call_from tools tools yard
      (loader_that (ok tt))
      workshop
      site
      vendor_place
      operations
      ensuring
      desk).0
    ≡ ok null
unfolding native_call_from native_call with_sqlite_cwd dumps escape ensure_engine
    ensure_sqlite_fire_library ensure_native ensure_native_artifact ensure_ember_json_sources
    ensure_sqlite_fire_sources sqlite_fire_library_name checked_run succeeded cached
    find_native_artifact native_cache_dirs build_native_extension prune_stale mojo_env
    mojo_toolchain_root prepend_env_path
worked = refl

native_call_from-IsWorked_example :
    IsWorked tools tools yard
      (loader_that (ok tt))
      workshop
      site
      "libsqlite_fire.so"
      vendor_place
      operations
      desk
      desk_after
      ensuring
      null
native_call_from-IsWorked_example =
    native_call_from-IsWorked tools tools yard (loader_that (ok tt)) workshop site
      "libsqlite_fire.so" vendor_place operations desk desk_after ensuring null fire_on_linux
      (λ i. (worked i, desk_after))
