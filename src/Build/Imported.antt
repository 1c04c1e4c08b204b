-- ===== src/Build/Imported.antt =====
-- python/fala/_build.py: what a call of `ensure_native` means for the next one.
use mathlib.Core.Path.{subst}
use fala.Prelude.{inl, inr, ◌⊎◌, String, ◌≡◌, refl, sym, ap, ◌∙◌, Option, none, some, Bool-cases}
use fala.Python.Outcome.{Outcome, Error, ok, raise, returned_value}
use fala.Python.Effect.{Action, ◌>>=◌}
use fala.Python.Keeps.{chain-returned, chain-ok, chain-raise}
use fala.Python.Json.{Platform}
use fala.Build.Sources.{Tools}
use fala.Build.Extension.{Depot, Yard, ensure_native_artifact}
use fala.Build.Settled.{ensure_native_artifact-again}
use fala.Build.Imports.{
  shared_library, Imported, Session, Loader, loading, at_depot, executed, from_spec, import_from,
  import_native, preload, preload_mojo_runtime, preload_toolchain, toolchain_root, ensure_native,
}

module _ ⦃platform : Platform⦄ (ember fire : Tools) (yard : Yard ember fire) (loader : Loader) where
  -- The part of a session that opening a library leaves alone.
  abbrev pub Same : Session ember fire → Session ember fire → Type 0
  Same s t = (s.depot ≡ t.depot) × (s.imported ≡ t.imported)

  -- A preload that succeeds does so in every session, and opens a library at most.
  Repeats : (Action (Session ember fire) (Unit {0})) → Type 0
  Repeats body =
      (s t : Session ember fire)
      → ((e : Error) × ((body s).0 ≡ raise e))
        ⊎ (((body s).0 ≡ ok tt) × ((body t).0 ≡ ok tt) × Same (body s).1 s × Same (body t).1 t)

  preload-Repeats : (library : String) → Repeats (preload ember fire yard loader library)
  unfolding Repeats preload
  preload-Repeats library s t = elim (Bool-cases (loader.machine.is_file library)) [
    | inr e ↦ simp e (inr (refl, refl, (refl, refl), (refl, refl)))
    | inl e ↦ elim (Bool-cases (loader.opens library)) [
      | inr f ↦ simp (e, f) (inl (_, refl))
      | inl f ↦ simp (e, f) (inr (refl, refl, (refl, refl), (refl, refl)))
    ]
  ]

  chain-Repeats :
      (first second : Action (Session ember fire) (Unit {0}))
      → Repeats first
      → Repeats second
      → Repeats (first >>= λ u. second)
  unfolding Repeats
  chain-Repeats first second f g s t = elim (f s t) [
    | inl (e, r) ↦
        inl (e, ap outcome (chain-raise first next s e (first s).1 (ap (λ x. (x, (first s).1)) r)))
    | inr (r, r', p, p') ↦
        let here = chain-ok first next s tt (first s).1 (ap (λ x. (x, (first s).1)) r) in
        let there = chain-ok first next t tt (first t).1 (ap (λ x. (x, (first t).1)) r') in
        elim (g (first s).1 (first t).1) [
          | inl (e, q) ↦ inl (e, ap outcome here ∙ q)
          | inr (q, q', o, o') ↦ inr (
            ap outcome here ∙ q,
            ap outcome there ∙ q',
            (ap depot_left here ∙ o.0 ∙ p.0, ap imported_left here ∙ o.1 ∙ p.1),
            (ap depot_left there ∙ o'.0 ∙ p'.0, ap imported_left there ∙ o'.1 ∙ p'.1),
          )
        ]
  ]
    where
      next : Unit {0} → Action (Session ember fire) (Unit {0})
      next u = second

      outcome : Outcome (Unit {0}) × Session ember fire → Outcome (Unit {0})
      outcome x = x.0

      depot_left : Outcome (Unit {0}) × Session ember fire → Depot ember fire
      depot_left x = x.1.depot

      imported_left : Outcome (Unit {0}) × Session ember fire → Option Imported
      imported_left x = x.1.imported

  preload_toolchain-Repeats :
      (o : Option String) → Repeats (preload_toolchain ember fire yard loader o)
  unfolding Repeats preload_mojo_runtime
  preload_toolchain-Repeats none s t = inr (refl, refl, (refl, refl), (refl, refl))
  preload_toolchain-Repeats (some toolchain) s t =
      chain-Repeats
        (preload ember fire yard loader
          (shared_library ember fire yard loader toolchain "libKGENCompilerRTShared"))
        (preload ember fire yard loader
          (shared_library ember fire yard loader toolchain "libAsyncRTMojoBindings"))
        (preload-Repeats _) (preload-Repeats _) s t

  -- An import raises, or returns what is imported from then on; it leaves the depot alone.
  abbrev IsImported : Session ember fire → Outcome Imported × Session ember fire → Type 0
  IsImported s x =
      ((e : Error) × (x.0 ≡ raise e))
      ⊎ ((m : Imported) × (x.0 ≡ ok m) × (x.1.imported ≡ some m) × (x.1.depot ≡ s.depot))

  executed-IsImported :
      (s : Session ember fire) (path : String) (r : Outcome (Unit {0}))
      → IsImported s
          (executed ember fire yard loader path r (record s { imported = some (loading path) }))
  executed-IsImported s path (ok u) = inr (_, refl, refl, refl)
  executed-IsImported s path (raise e) = inl (e, refl)

  from_spec-IsImported :
      (s : Session ember fire) (path : String) (r : Outcome (Unit {0}))
      → IsImported s (from_spec ember fire yard loader path r s)
  from_spec-IsImported s path (ok u) = executed-IsImported s path (loader.exec_module path)
  from_spec-IsImported s path (raise e) = inl (e, refl)

  import_from-IsImported :
      (o : Option Imported) (s : Session ember fire) (path : String)
      → s.imported ≡ o
      → IsImported s (import_from ember fire yard loader o path s)
  import_from-IsImported (some m) s path h = inr (m, refl, h, refl)
  import_from-IsImported none s path h = elim (Bool-cases (loader.has_spec path)) [
    | inl e ↦ simp e (from_spec-IsImported s path (loader.module_from_spec path))
    | inr e ↦ simp e (inl (_, refl))
  ]

  import_native-kept :
      (s t : Session ember fire) (path : String) (m : Imported)
      → import_native ember fire yard loader path s ≡ (ok m, t)
      → (t.imported ≡ some m) × (t.depot ≡ s.depot)
  unfolding import_native
  import_native-kept s t path m h = kept (import_from-IsImported s.imported s path refl)
    where
      kept :
          IsImported s (import_native ember fire yard loader path s)
          → (t.imported ≡ some m) × (t.depot ≡ s.depot)
      kept (inl (e, r)) =
          absurd (cc (sym r ∙ ap (λ (x : Outcome Imported × Session ember fire). x.0) h))
      kept (inr (n, r, there, alone)) =
          let same : n ≡ m =
            returned_value (sym r ∙ ap (λ (x : Outcome Imported × Session ember fire). x.0) h) in
          (
            sym (ap (λ (x : Outcome Imported × Session ember fire). x.1.imported) h)
                ∙ there
                ∙ ap some same,
            sym (ap (λ (x : Outcome Imported × Session ember fire). x.1.depot) h) ∙ alone,
          )

  import_native-again :
      (s : Session ember fire) (path : String) (m : Imported)
      → s.imported ≡ some m
      → import_native ember fire yard loader path s ≡ (ok m, s)
  unfolding import_native
  import_native-again s path m h = ap (λ o. import_from ember fire yard loader o path s) h

  built-again :
      (s t u : Session ember fire) (path : String)
      → at_depot ember fire yard loader (ensure_native_artifact ember fire yard) s ≡ (ok path, t)
      → u.depot ≡ t.depot
      → at_depot ember fire yard loader (ensure_native_artifact ember fire yard) u ≡ (ok path, u)
  built-again s t u path h same =
      let (_, again) =
        ensure_native_artifact-again ember fire yard s.depot t.depot path
          (λ i. ((h i).0, (h i).1.depot)) in
      let here =
        subst (λ d. ensure_native_artifact ember fire yard d ≡ (ok path, d)) (sym same) again in
      λ i. ((here i).0, record u { depot = (here i).1 })

  preloaded-again :
      (o : Option String) (s t u : Session ember fire)
      → preload_toolchain ember fire yard loader o s ≡ (ok tt, t)
      → ((preload_toolchain ember fire yard loader o u).0 ≡ ok tt)
        × Same t s
        × Same (preload_toolchain ember fire yard loader o u).1 u
  unfolding Repeats
  preloaded-again o s t u h = elim (preload_toolchain-Repeats o s u) [
    | inl (e, r) ↦ absurd (cc (sym r ∙ ap (λ (x : Outcome (Unit {0}) × Session ember fire). x.0) h))
    | inr (_, r, same, kept) ↦ (
      r,
      (
        sym (ap (λ (x : Outcome (Unit {0}) × Session ember fire). x.1.depot) h) ∙ same.0,
        sym (ap (λ (x : Outcome (Unit {0}) × Session ember fire). x.1.imported) h) ∙ same.1,
      ),
      kept,
    )
  ]

  -- What a call that has returned went through: the path of the artifact, and the two states on the way.
  steps :
      (s t : Session ember fire) (m : Imported)
      → ensure_native ember fire yard loader s ≡ (ok m, t)
      → (path : String) × (s₁ : Session ember fire) × (s₂ : Session ember fire) × (at_depot ember
            fire yard loader
            (ensure_native_artifact ember fire yard)
            s
          ≡ (ok path, s₁))
        × (preload_toolchain ember fire yard loader (toolchain_root ember fire yard loader) s₁
            ≡ (ok tt, s₂))
        × (import_native ember fire yard loader path s₂ ≡ (ok m, t))
  unfolding ensure_native
  steps s t m h =
      let build = at_depot ember fire yard loader (ensure_native_artifact ember fire yard) in
      let preloads =
        preload_toolchain ember fire yard loader (toolchain_root ember fire yard loader) in
      let rest = λ (path : String). preloads >>= λ u. import_native ember fire yard loader path in
      let (path, s₁, e₁, r₁) = chain-returned build rest s m t h in
      let next = λ (v : Unit {0}). import_native ember fire yard loader path in
      let (u, s₂, e₂, r₂) = chain-returned preloads next s₁ m t r₁ in (path, s₁, s₂, e₁, e₂, r₂)

  pub ensure_native-imported :
      (s t : Session ember fire) (m : Imported)
      → ensure_native ember fire yard loader s ≡ (ok m, t)
      → t.imported ≡ some m
  ensure_native-imported s t m h =
      let (path, s₁, s₂, e₁, e₂, r₂) = steps s t m h in (import_native-kept s₂ t path m r₂).0

  -- Once a call has returned the extension, a call in any state with the same sources, caches and imported
  -- module returns the same one, whether it is ready or not, and leaves these as they are.
  pub ensure_native-again :
      (s t u : Session ember fire) (m : Imported)
      → ensure_native ember fire yard loader s ≡ (ok m, t)
      → Same u t
      → ((ensure_native ember fire yard loader u).0 ≡ ok m)
        × Same (ensure_native ember fire yard loader u).1 t
  unfolding ensure_native
  ensure_native-again s t u m h alike =
      let build = at_depot ember fire yard loader (ensure_native_artifact ember fire yard) in
      let preloads =
        preload_toolchain ember fire yard loader (toolchain_root ember fire yard loader) in
      let rest = λ (path : String). preloads >>= λ v. import_native ember fire yard loader path in
      let (path, s₁, s₂, e₁, e₂, r₂) = steps s t m h in
      let next = λ (v : Unit {0}). import_native ember fire yard loader path in
      let (there, alone) = import_native-kept s₂ t path m r₂ in
      let (done, same, kept) = preloaded-again (toolchain_root ember fire yard loader) s₁ s₂ u e₂ in
      let all =
        chain-ok build rest u path u (built-again s s₁ u path e₁ (alike.0 ∙ alone ∙ same.0))
        ∙ chain-ok preloads next u tt (preloads u).1 (ap (λ x. (x, (preloads u).1)) done)
        ∙ import_native-again (preloads u).1 path m (kept.1 ∙ alike.1 ∙ there) in
      (
        ap (λ (x : Outcome Imported × Session ember fire). x.0) all,
        (
          ap (λ (x : Outcome Imported × Session ember fire). x.1.depot) all ∙ kept.0 ∙ alike.0,
          ap (λ (x : Outcome Imported × Session ember fire). x.1.imported) all ∙ kept.1 ∙ alike.1,
        ),
      )
