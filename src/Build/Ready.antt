-- ===== src/Build/Ready.antt =====
-- python/fala/_build.py: `ensure_sqlite_fire_library` gives back a library that is there and opened.
use fala.Prelude.{
  String, ◌≡◌, refl, sym, ap, ◌∙◌, List, arith, inl, inr, ◌⊎◌, true, ◌||◌, ◌∷◌, if◌then◌else◌,
  Bool-cases,
}
use fala.Python.Outcome.{Outcome, Error, ok, raise}
use fala.Python.Effect.{Action, lift, ◌>>=◌}
use fala.Python.Keeps.{Keeps, chain-cases}
use fala.Python.Json.{Platform}
use fala.Build.Libraries.{Site, c_compiler, needed, sqlite_fire_library_name, skips_native_build}
use fala.Build.Sources.{Tools, ensure_sqlite_fire_sources}
use fala.Build.SqliteFire.{
  Workshop, Vendor, sqlite_fire_path, is_there, load, build_sqlite_fire, open_or_build, run_make,
  make_missing, compiler_missing, expect_file, at_sources, ensure_sqlite_fire_library,
}

module _ ⦃platform : Platform⦄ (tools : Tools) (workshop : Workshop tools) (site : Site)
    (name : String) where
  -- The library is there and was opened last, or an exception was raised and nothing was opened.
  abbrev pub IsReady : Vendor tools → Outcome String × Vendor tools → Type 0
  IsReady s x =
      ((x.0 ≡ ok (sqlite_fire_path site name))
        × (is_there workshop name x.1.sources ≡ true)
        × (x.1.loaded ≡ sqlite_fire_path site name ∷ s.loaded))
      ⊎ ((e : Error) × (x.0 ≡ raise e) × (x.1.loaded ≡ s.loaded))

  load-IsReady :
      (s t : Vendor tools)
      → is_there workshop name t.sources ≡ true
      → t.loaded ≡ s.loaded
      → IsReady s (load tools workshop site (sqlite_fire_path site name) t)
  unfolding load
  load-IsReady s t there same =
      elim (Bool-cases (workshop.opens (sqlite_fire_path site name) t.sources)) [
        | inl e ↦ rw e (inl (refl, there, ap (λ paths. sqlite_fire_path site name ∷ paths) same))
        | inr e ↦ rw e (inr (_, refl, same))
      ]

  opened : Vendor tools → List String
  opened v = v.loaded

  -- A part that opens nothing, and then what makes the library ready.
  quiet-IsReady :
      {A : Type 0} (body : Action (Vendor tools) A) (next : A → Action (Vendor tools) String)
      (s t : Vendor tools)
      → Keeps opened body
      → t.loaded ≡ s.loaded
      → ((a : A) (u : Vendor tools)
          → body t ≡ (ok a, u)
          → u.loaded ≡ s.loaded
          → IsReady s (next a u))
      → IsReady s ((body >>= next) t)
  unfolding opened
  quiet-IsReady {A} body next s t kept same h =
      chain-cases (IsReady s) body next t (λ e u p. inr (e, refl, sym (ap view p) ∙ kept t ∙ same))
        λ a u p. h a u p (sym (ap view p) ∙ kept t ∙ same)
    where
      view : Outcome A × Vendor tools → List String
      view x = x.1.loaded

  run_make-there :
      (program : String) (t u : Vendor tools)
      → run_make tools workshop site program name t ≡ (ok tt, u)
      → is_there workshop name u.sources ≡ true
  run_make-there program t u h =
      let left = (workshop.make program t.sources).0 in
      let same : left ≡ u.sources = ap (λ (x : Outcome (Unit {0}) × Vendor tools). x.1.sources) h in
      let ended = ap (λ (x : Outcome (Unit {0}) × Vendor tools). x.0) h in
      elim (Bool-cases (is_there workshop name left)) [
        | inl e ↦ rw (← same) e
        | inr e ↦ absurd (ground (arith, ended, e))
      ]

  build-IsReady : (s : Vendor tools) → IsReady s (build_sqlite_fire tools workshop site name s)
  unfolding build_sqlite_fire opened
  build-IsReady s =
      quiet-IsReady (at_sources tools workshop site (ensure_sqlite_fire_sources tools)) _ s s
        (λ t. refl) refl
        λ _ a _ ka.
          quiet-IsReady
            (expect_file tools workshop site "Makefile" "sqlite.fire Makefile missing at ") _ s a
            (λ t. refl) ka
            λ _ b _ kb.
              quiet-IsReady
                (expect_file tools workshop site "sqlite_fire.c"
                  "sqlite.fire C sources missing under ")
                _ s b (λ t. refl) kb
                λ _ c _ kc.
                  quiet-IsReady (lift (needed (site.which "make") make_missing)) _ s c (λ t. refl)
                    kc
                    λ program d _ kd.
                      quiet-IsReady (lift (needed (c_compiler site) compiler_missing)) _ s d
                        (λ t. refl) kd
                        λ _ f _ kf.
                          quiet-IsReady (run_make tools workshop site program name) _ s f
                            (λ t. refl) kf
                            λ _ g made kg. load-IsReady s g (run_make-there program f g made) kg

  open_or_build-IsReady : (s : Vendor tools) → IsReady s (open_or_build tools workshop site name s)
  open_or_build-IsReady s = elim (Bool-cases (is_there workshop name s.sources)) [
    | inl there ↦ rw there (load-IsReady s s there refl)
    | inr absent ↦ elim (Bool-cases (skips_native_build site.skip_native_build)) [
      | inl skips ↦ rw (absent, skips) (inr (_, refl, refl))
      | inr builds ↦ rw (absent, builds) (build-IsReady s)
    ]
  ]

  load-sources :
      (path : String) (s : Vendor tools) → (load tools workshop site path s).1.sources ≡ s.sources
  unfolding load
  load-sources path s = ground arith

  open_or_build-sources :
      (s : Vendor tools)
      → (open_or_build tools workshop site name s).1.sources ≡ (
          if is_there workshop name s.sources || skips_native_build site.skip_native_build
          then s.sources
          else (open_or_build tools workshop site name s).1.sources)
  open_or_build-sources s = elim (Bool-cases (is_there workshop name s.sources)) [
    | inl there ↦ rw there (load-sources (sqlite_fire_path site name) s)
    | inr absent ↦ elim (Bool-cases (skips_native_build site.skip_native_build)) [
      | inl skips ↦ rw (absent, skips) refl
      | inr builds ↦ rw (absent, builds) refl
    ]
  ]

  -- On a supported platform: the call returns the path of the library, which is there then and is the one
  -- library that was opened, or raises and has opened none. Where the library was there, or builds are
  -- switched off, the sources stay as they were.
  pub ensure_sqlite_fire_library-IsReady :
      (s : Vendor tools)
      → sqlite_fire_library_name site.system ≡ ok name
      → IsReady s (ensure_sqlite_fire_library tools workshop site s)
        × ((ensure_sqlite_fire_library tools workshop site s).1.sources ≡ (
            if is_there workshop name s.sources || skips_native_build site.skip_native_build
            then s.sources
            else (ensure_sqlite_fire_library tools workshop site s).1.sources))
  unfolding ensure_sqlite_fire_library
  ensure_sqlite_fire_library-IsReady s named =
      rw named (open_or_build-IsReady s, open_or_build-sources s)
