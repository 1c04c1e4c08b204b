-- ===== src/Build/Engine.antt =====
-- python/fala/_build.py: the two calls by which a caller of the native engine makes it ready, in their
-- order: `ensure_sqlite_fire_library()` and `ensure_native()`. Both work on the sources of sqlite.fire,
-- and both open libraries in the process.
use fala.Python.Effect.{Action, ◌>>=◌}
use fala.Python.Json.{Platform}
use fala.Build.Libraries.{Site}
use fala.Build.Sources.{Tools}
use fala.Build.SqliteFire.{Workshop, Vendor, ensure_sqlite_fire_library}
use fala.Build.Extension.{Yard}
use fala.Build.Imports.{Session, Loader, Imported, ensure_native}

module _ ⦃platform : Platform⦄ (ember fire : Tools) (yard : Yard ember fire) (loader : Loader)
    (workshop : Workshop fire) (site : Site) where
  -- a session, as `ensure_sqlite_fire_library` sees it
  abbrev pub vendor_of : Session ember fire → Vendor fire
  vendor_of s = record { sources = s.depot.sqlite_fire; loaded = s.opened }

  abbrev pub with_vendor : Session ember fire → Vendor fire → Session ember fire
  with_vendor s v = record s {
    depot = record s.depot { sqlite_fire = v.sources };
    opened = v.loaded;
  }

  unfoldable pub at_vendor : {A : Type 0} → Action (Vendor fire) A → Action (Session ember fire) A
  at_vendor body s = let (r, v) = body (vendor_of s) in (r, with_vendor s v)

  -- the extension, with the library of sqlite.fire opened before it
  unfoldable pub ensure_engine : Action (Session ember fire) Imported
  unfolding at_vendor
  ensure_engine = do
    path ← at_vendor (ensure_sqlite_fire_library fire workshop site)
    ensure_native ember fire yard loader
