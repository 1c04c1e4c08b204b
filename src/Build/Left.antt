-- ===== src/Build/Left.antt =====
-- python/fala/_build.py: what a first import of the extension leaves for the later ones.
use fala.Prelude.{◌⊎◌, String, ◌≡◌}
use fala.Python.Outcome.{is_ok, Outcome, Error, ok, raise}
use fala.Python.Json.{Platform}
use fala.Build.Sources.{Tools}
use fala.Build.Extension.{Yard}
use fala.Build.Imports.{Imported, Session, Loader, import_native}

module _ ⦃platform : Platform⦄ (ember fire : Tools) (yard : Yard ember fire) (loader : Loader) where
  -- What a first import leaves for the later ones: the session as it was, if it raised, or a module that every
  -- import returns from then on.
  abbrev pub IsLeft : Session ember fire → String → Outcome Imported × Session ember fire → Type 0
  IsLeft s path x =
      ((e : Error) × (x.0 ≡ raise e) × (x.1 ≡ s))
      ⊎ ((m : Imported) × (m.path ≡ path)
          × (m.ready ≡ is_ok x.0)
          × ((other : String) → import_native ember fire yard loader other x.1 ≡ (ok m, x.1)))
