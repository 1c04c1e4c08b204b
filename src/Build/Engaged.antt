-- ===== src/Build/Engaged.antt =====
-- python/fala/_build.py: what holds once the native engine is ready.
use fala.Prelude.{
  String, ◌≡◌, refl, sym, ap, ◌∙◌, inl, inr, true, Bool-cases, ◌∷◌, is_in, arith, eq_refl, Option,
  none, some,
}
use fala.Python.Outcome.{Outcome, ok, raise}
use fala.Python.Effect.{Action, ◌>>=◌}
use fala.Python.Keeps.{chain-returned, chain-ok, chain-cases}
use fala.Python.Json.{Platform}
use fala.Build.Libraries.{Site, sqlite_fire_library_name}
use fala.Build.Sources.{Tools}
use fala.Build.SqliteFire.{Workshop, sqlite_fire_path, is_there, load, ensure_sqlite_fire_library}
use fala.Build.Ready.{ensure_sqlite_fire_library-IsReady}
use fala.Build.Extension.{Yard, ensure_native_artifact}
use fala.Build.Imports.{
  Session, Loader, Imported, ensure_native, at_depot, preload, preload_mojo_runtime,
  preload_toolchain, import_native, import_from, from_spec, executed, shared_library,
  toolchain_root, loading,
}
use fala.Build.Imported.{Same, ensure_native-again, ensure_native-imported}
use fala.Build.Engine.{vendor_of, at_vendor, ensure_engine}

module _ ⦃platform : Platform⦄ (ember fire : Tools) (yard : Yard ember fire) (loader : Loader)
    (workshop : Workshop fire) (site : Site) (name : String) where
  path : String
  path = sqlite_fire_path site name

  -- Where the library is there and can be opened, the first call opens it and changes nothing else.
  opened-again :
      (s : Session ember fire)
      → sqlite_fire_library_name site.system ≡ ok name
      → is_there workshop name s.depot.sqlite_fire ≡ true
      → workshop.opens path s.depot.sqlite_fire ≡ true
      → at_vendor ember fire yard loader workshop site
          (ensure_sqlite_fire_library fire workshop site)
          s
        ≡ (ok path, record s { opened = path ∷ s.opened })
  unfolding at_vendor ensure_sqlite_fire_library path load
  opened-again s named there opens = rw named (rw there (rw opens refl))

  -- Once both calls have returned the extension, and where the library of sqlite.fire is still there and can
  -- be opened: both return it again, and leave the sources, the caches and the imported module as they are.
  pub ensure_engine-again :
      (s t : Session ember fire) (m : Imported)
      → sqlite_fire_library_name site.system ≡ ok name
      → ensure_engine ember fire yard loader workshop site s ≡ (ok m, t)
      → is_there workshop name t.depot.sqlite_fire ≡ true
      → workshop.opens (sqlite_fire_path site name) t.depot.sqlite_fire ≡ true
      → ((ensure_engine ember fire yard loader workshop site t).0 ≡ ok m)
        × Same ember fire yard loader (ensure_engine ember fire yard loader workshop site t).1 t
  unfolding ensure_engine path
  ensure_engine-again s t m named h there opens =
      let first =
        at_vendor ember fire yard loader workshop site
          (ensure_sqlite_fire_library fire workshop site) in
      let rest = λ (p : String). ensure_native ember fire yard loader in
      let (p, s₁, e₁, r₁) = chain-returned first rest s m t h in
      let u : Session ember fire = record t { opened = path ∷ t.opened } in
      let (again, alike) = ensure_native-again ember fire yard loader s₁ t u m r₁ (refl, refl) in
      let all = chain-ok first rest t path u (opened-again t named there opens) in
      (
        ap (λ (x : Outcome Imported × Session ember fire). x.0) all ∙ again,
        (
          ap (λ (x : Outcome Imported × Session ember fire). x.1.depot) all ∙ alike.0,
          ap (λ (x : Outcome Imported × Session ember fire). x.1.imported) all ∙ alike.1,
        ),
      )

  -- A part that closes no library.
  Holds : {A : Type 0} → Action (Session ember fire) A → Type 0
  Holds body =
      (s : Session ember fire) → is_in path s.opened ≡ true → is_in path (body s).1.opened ≡ true

  Holds-chain :
      {A B : Type 0} (body : Action (Session ember fire) A)
      (next : A → Action (Session ember fire) B)
      → Holds body
      → ((a : A) → Holds (next a))
      → Holds (body >>= next)
  unfolding Holds
  Holds-chain {A} {B} body next h k s held =
      chain-cases (λ (x : Outcome B × Session ember fire). is_in path x.1.opened ≡ true) body next s
        (λ e t p. after p) (λ a t p. k a t (after p))
    where
      after :
          {r : Outcome A} {t : Session ember fire} → body s ≡ (r, t) → is_in path t.opened ≡ true
      after p =
          sym (ap (λ (x : Outcome A × Session ember fire). is_in path x.1.opened) p) ∙ h s held

  preload-Holds : (library : String) → Holds (preload ember fire yard loader library)
  unfolding Holds preload
  preload-Holds library s held = elim (Bool-cases (loader.machine.is_file library)) [
    | inr e ↦ rw e held
    | inl e ↦ elim (Bool-cases (loader.opens library)) [
      | inr f ↦ rw (e, f) held
      | inl f ↦ rw (e, f) (ground (arith, held))
    ]
  ]

  preload_mojo_runtime-Holds :
      (toolchain : String) → Holds (preload_mojo_runtime ember fire yard loader toolchain)
  unfolding preload_mojo_runtime
  preload_mojo_runtime-Holds toolchain =
      Holds-chain
        (preload ember fire yard loader
          (shared_library ember fire yard loader toolchain "libKGENCompilerRTShared"))
        (λ u.
          preload ember fire yard loader
            (shared_library ember fire yard loader toolchain "libAsyncRTMojoBindings"))
        (preload-Holds _) (λ u. preload-Holds _)

  preload_toolchain-Holds : (o : Option String) → Holds (preload_toolchain ember fire yard loader o)
  unfolding Holds
  preload_toolchain-Holds none s held = held
  preload_toolchain-Holds (some toolchain) s held = preload_mojo_runtime-Holds toolchain s held

  import_native-Holds : (at : String) → Holds (import_native ember fire yard loader at)
  unfolding Holds import_native
  import_native-Holds at s held = from s.imported
    where
      ended :
          (r : Outcome (Unit {0})) (u : Session ember fire)
          → is_in path u.opened ≡ true
          → is_in path (executed ember fire yard loader at r u).1.opened ≡ true
      ended (ok _) u h = h
      ended (raise e) u h = h

      made :
          (r : Outcome (Unit {0}))
          → is_in path (from_spec ember fire yard loader at r s).1.opened ≡ true
      made (ok _) = ended (loader.exec_module at) (record s { imported = some (loading at) }) held
      made (raise e) = held

      from :
          (o : Option Imported)
          → is_in path (import_from ember fire yard loader o at s).1.opened ≡ true
      from (some m) = held
      from none = elim (Bool-cases (loader.has_spec at)) [
        | inl e ↦ rw e (made (loader.module_from_spec at))
        | inr e ↦ rw e held
      ]

  build-Holds : Holds (at_depot ember fire yard loader (ensure_native_artifact ember fire yard))
  unfolding Holds
  build-Holds s held = held

  ensure_native-Holds : Holds (ensure_native ember fire yard loader)
  unfolding ensure_native
  ensure_native-Holds =
      let build = at_depot ember fire yard loader (ensure_native_artifact ember fire yard) in
      let preloads =
        preload_toolchain ember fire yard loader (toolchain_root ember fire yard loader) in
      let next = λ (at : String) (u : Unit {0}). import_native ember fire yard loader at in
      Holds-chain build (λ at. preloads >>= next at) build-Holds
        (λ at.
          Holds-chain preloads (next at) (preload_toolchain-Holds _) (λ u. import_native-Holds at))

  -- The first call, once it has returned, has opened the library.
  first-opened :
      (s u : Session ember fire) (at : String)
      → sqlite_fire_library_name site.system ≡ ok name
      → at_vendor ember fire yard loader workshop site
          (ensure_sqlite_fire_library fire workshop site)
          s
        ≡ (ok at, u)
      → is_in path u.opened ≡ true
  unfolding at_vendor path
  first-opened s u at named h =
      elim (ensure_sqlite_fire_library-IsReady fire workshop site name
        (vendor_of ember fire yard loader workshop site s) named).0 [
          | inl (_, _, opened) ↦
              sym (ap (λ (x : Outcome String × Session ember fire). is_in path x.1.opened) h)
              ∙ ap (is_in path) opened
              ∙ ground (arith, eq_refl path)
          | inr (e, raised, _) ↦
              absurd (cc (sym raised ∙ ap (λ (x : Outcome String × Session ember fire). x.0) h))
        ]

  -- On a supported platform, once both calls have returned: the extension is among the imported modules, and
  -- the library of sqlite.fire among those that the process has opened.
  pub ensure_engine-opened :
      (s t : Session ember fire) (m : Imported)
      → sqlite_fire_library_name site.system ≡ ok name
      → ensure_engine ember fire yard loader workshop site s ≡ (ok m, t)
      → (t.imported ≡ some m) × (is_in (sqlite_fire_path site name) t.opened ≡ true)
  unfolding ensure_engine path Holds
  ensure_engine-opened s t m named h =
      let first =
        at_vendor ember fire yard loader workshop site
          (ensure_sqlite_fire_library fire workshop site) in
      let rest = λ (p : String). ensure_native ember fire yard loader in
      let (at, s₁, e₁, r₁) = chain-returned first rest s m t h in
      (
        ensure_native-imported ember fire yard loader s₁ t m r₁,
        sym (ap (λ (x : Outcome Imported × Session ember fire). is_in path x.1.opened) r₁)
            ∙ ensure_native-Holds s₁ (first-opened s s₁ at named e₁),
      )
