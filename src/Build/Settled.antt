-- ===== src/Build/Settled.antt =====
-- python/fala/_build.py: what `_ensure_native_artifact` leaves for the next call.
use fala.Prelude.{
  false, String, ◌≡◌, refl, sym, ap, ◌∙◌, ◌⊎◌, inl, inr, arith, true, Option, some, Bool-cases,
  is_in, eq_refl, ◌==◌, none, Bool,
}
use fala.Python.Outcome.{runtime_error, builtin, Outcome, Error, ok, raise, returned_value}
use fala.Python.Effect.{Action, lift, modify, ◌>>=◌}
use fala.Python.Keeps.{chain-cases}
use fala.Python.Json.{Platform}
use fala.Build.Sources.{Tools, ensure_ember_json_sources, ensure_sqlite_fire_sources}
use fala.Build.Cache.{
  is_built, Compiled, build_native_extension, Names, first_file, prune_stale, artifact_name, under,
  native_cache_dirs, find_native_artifact,
}
use fala.Build.Kept.{is_in-prune_stale}
use fala.Build.Extension.{
  at_fire, with_names, guarded, or_else_do, at_ember, digest_of, cache_of, at_cache, locked, Depot,
  Yard, cached, build_artifact, fetch_and_build, find_or_build, ensure_native_artifact,
}

first_file-first :
    (is_file : String → String → Bool) (checkout : Option String) (installed name : String)
    → is_file (cache_of checkout installed) name ≡ true
    → first_file is_file name (native_cache_dirs checkout installed)
      ≡ some (under (cache_of checkout installed) name)
unfolding native_cache_dirs
first_file-first is_file none installed name h = rw h refl
first_file-first is_file (some home) installed name h =
    elim (Bool-cases (under installed "__mojocache__" == under home "__mojocache__")) [
      | inl e ↦ rw (e, h) refl
      | inr e ↦ rw (e, h) refl
    ]

module _ ⦃platform : Platform⦄ (ember fire : Tools) (yard : Yard ember fire) where
  first_found :
      (s : Depot ember fire)
      → is_in
          (artifact_name (digest_of ember fire yard s))
          (s.caches (cache_of yard.checkout yard.installed))
        ≡ true
      → cached ember fire yard s
        ≡ some (
            under
              (cache_of yard.checkout yard.installed)
              (artifact_name (digest_of ember fire yard s)))
  unfolding cached find_native_artifact
  first_found s h =
      first_file-first (λ directory name. is_in name (s.caches directory)) yard.checkout
        yard.installed (artifact_name (digest_of ember fire yard s)) h

  -- An exception, or the artifact is in the cache.
  IsMade : (so : String) → Outcome (Unit {0}) × Names → Type 0
  IsMade so x = ((e : Error) × (x.0 ≡ raise e)) ⊎ (is_in so x.1 ≡ true)

  returned-IsMade :
      (so : String) (x : Outcome (Unit {0}) × Names) {u : Unit {0}}
      → IsMade so x
      → x.0 ≡ ok u
      → is_in so x.1 ≡ true
  unfolding IsMade
  returned-IsMade so x (inl (error, raised)) h = absurd (cc (sym raised ∙ h))
  returned-IsMade so x (inr there) h = there

  build-IsMade :
      (mojo : Outcome String) (temp so : String) (c : Compiled) (names : Names)
      → IsMade so (build_native_extension mojo temp so c names)
  unfolding IsMade build_native_extension
  build-IsMade (raise e) temp so c names = inl (e, refl)
  build-IsMade (ok path) temp so c names = elim (Bool-cases (is_built c)) [
    | inl e ↦ rw e (inr (rw (eq_refl so) refl))
    | inr e ↦ rw e (inl (_, refl))
  ]

  prune-there :
      (so : String) (names : Names) → is_in so names ≡ true → is_in so (prune_stale so names) ≡ true
  prune-there so names h = ground (arith, is_in-prune_stale so so names, eq_refl so)

  locked-IsMade : (so : String) (names : Names) → IsMade so (locked ember fire yard so names)
  unfolding locked IsMade
  locked-IsMade so names = elim (Bool-cases (is_in so names)) [
    | inl e ↦ rw e (inr (prune-there so names e))
    | inr e ↦
        let build = build_native_extension yard.mojo yard.temp so yard.compiled in
        rw e (
          chain-cases (IsMade so) build (λ u. modify (prune_stale so)) names
            (λ error t p. inl (error, refl))
            λ u t p. inr (
              prune-there so t (
                rw (ap (λ (x : Outcome (Unit {0}) × Names). x.1) p) at (
                  returned-IsMade so (build names)
                    (build-IsMade yard.mojo yard.temp so yard.compiled names)
                    (ap (λ (x : Outcome (Unit {0}) × Names). x.0) p)))))
  ]

  -- An exception, or the path of the artifact that the next search finds.
  IsSettled : Outcome String × Depot ember fire → Type 0
  IsSettled x =
      ((e : Error) × (x.0 ≡ raise e))
      ⊎ ((path : String) × (x.0 ≡ ok path) × (cached ember fire yard x.1 ≡ some path))

  stored-found :
      (s : Depot ember fire) (names : Names)
      → is_in (artifact_name (digest_of ember fire yard s)) names ≡ true
      → cached ember fire yard
          (record s { caches = with_names (cache_of yard.checkout yard.installed) names s.caches })
        ≡ some (
            under
              (cache_of yard.checkout yard.installed)
              (artifact_name (digest_of ember fire yard s)))
  stored-found s names h =
      first_found
        (record s { caches = with_names (cache_of yard.checkout yard.installed) names s.caches })
        (rw (eq_refl (cache_of yard.checkout yard.installed)) h)

  locked-IsSettled :
      (s : Depot ember fire)
      → IsMade (artifact_name (digest_of ember fire yard s)) (
          locked ember fire yard
            (artifact_name (digest_of ember fire yard s))
            (s.caches (cache_of yard.checkout yard.installed)))
      → IsSettled (
          (at_cache ember fire yard
                (cache_of yard.checkout yard.installed)
                (locked ember fire yard (artifact_name (digest_of ember fire yard s)))
              >>= λ u. lift (
                  ok (
                    under
                      (cache_of yard.checkout yard.installed)
                      (artifact_name (digest_of ember fire yard s)))))
            s)
  unfolding IsSettled
  locked-IsSettled s h =
      let directory = cache_of yard.checkout yard.installed in
      let so = artifact_name (digest_of ember fire yard s) in
      let body = locked ember fire yard so in
      chain-cases IsSettled (at_cache ember fire yard directory body)
        (λ u. lift (ok (under directory so))) s (λ e t p. inl (e, refl))
        λ u t p.
          let ended = ap (λ (x : Outcome (Unit {0}) × Depot ember fire). x.0) p in
          let stored = ap (λ (x : Outcome (Unit {0}) × Depot ember fire). x.1) p in
          inr (
            _,
            refl,
            rw (← stored) (
                stored-found s (body (s.caches directory)).1
                  (returned-IsMade so (body (s.caches directory)) h ended)),
          )

  build_artifact-IsSettled : (s : Depot ember fire) → IsSettled (build_artifact ember fire yard s)
  unfolding build_artifact IsSettled
  build_artifact-IsSettled s =
      let directory = cache_of yard.checkout yard.installed in
      let so = artifact_name (digest_of ember fire yard s) in
      elim (Bool-cases (is_in so (s.caches directory))) [
        | inl e ↦ rw e (inr (_, refl, first_found s e))
        | inr e ↦ rw e (locked-IsSettled s (locked-IsMade so (s.caches directory)))
      ]

  or_else_do-IsSettled :
      (found : Option String) (body : Action (Depot ember fire) String) (s : Depot ember fire)
      → cached ember fire yard s ≡ found
      → IsSettled (body s)
      → IsSettled (or_else_do ember fire yard found body s)
  unfolding IsSettled
  or_else_do-IsSettled (some path) body s e h = inr (path, refl, e)
  or_else_do-IsSettled none body s e h = h

  fetch_and_build-IsSettled : (s : Depot ember fire) → IsSettled (fetch_and_build ember fire yard s)
  unfolding fetch_and_build IsSettled
  fetch_and_build-IsSettled s =
      chain-cases IsSettled (at_ember ember fire yard (ensure_ember_json_sources ember))
        (λ u. at_fire ember fire yard (ensure_sqlite_fire_sources fire) >>= λ v.
          find_or_build ember fire yard)
        s (λ e t p. inl (e, refl))
        λ u t p.
          chain-cases IsSettled (at_fire ember fire yard (ensure_sqlite_fire_sources fire))
            (λ v. find_or_build ember fire yard) t (λ e r q. inl (e, refl))
            λ v r q.
              or_else_do-IsSettled (cached ember fire yard r) (build_artifact ember fire yard) r
                refl (build_artifact-IsSettled r)

  guarded-IsSettled :
      (there : Bool) (s : Depot ember fire)
      → IsSettled (
          or_else_do ember fire yard (cached ember fire yard s) (fetch_and_build ember fire yard) s)
      → IsSettled (guarded ember fire yard there s)
  unfolding IsSettled
  guarded-IsSettled true s h = h
  guarded-IsSettled false s h = inl (_, refl)

  guarded-there :
      (there : Bool) (s t u : Depot ember fire) (path : String)
      → guarded ember fire yard there s ≡ (ok path, t)
      → cached ember fire yard u ≡ some path
      → guarded ember fire yard there u ≡ (ok path, u)
  guarded-there true s t u path h found = rw found refl
  guarded-there false s t u path h found =
      let ended : raise (builtin runtime_error "missing ") ≡ ok path =
        ap (λ (x : Outcome String × Depot ember fire). x.0) h in
      absurd (cc ended)

  ensure_native_artifact-IsSettled :
      (s : Depot ember fire) → IsSettled (ensure_native_artifact ember fire yard s)
  unfolding ensure_native_artifact IsSettled
  ensure_native_artifact-IsSettled s = guarded-IsSettled yard.has_native_mojo s (
      or_else_do-IsSettled (cached ember fire yard s) (fetch_and_build ember fire yard) s refl
        (fetch_and_build-IsSettled s))

  -- Once a call has returned a path, this is the path of the artifact in the caches whose name has the digest
  -- of the sources as they are then; and another call returns it too, and changes neither sources nor
  -- caches.
  pub ensure_native_artifact-again :
      (s t : Depot ember fire) (path : String)
      → ensure_native_artifact ember fire yard s ≡ (ok path, t)
      → (cached ember fire yard t ≡ some path)
        × (ensure_native_artifact ember fire yard t ≡ (ok path, t))
  unfolding ensure_native_artifact IsSettled
  ensure_native_artifact-again s t path h =
      let found = settled (ensure_native_artifact-IsSettled s) in
      (found, guarded-there yard.has_native_mojo s t t path h found)
    where
      settled :
          IsSettled (ensure_native_artifact ember fire yard s)
          → cached ember fire yard t ≡ some path
      settled (inl (error, raised)) =
          absurd (cc (sym raised ∙ ap (λ (x : Outcome String × Depot ember fire). x.0) h))
      settled (inr (other, returned, found)) =
          let same : other ≡ path =
            returned_value (sym returned ∙ ap (λ (x : Outcome String × Depot ember fire). x.0) h) in
          let left : (ensure_native_artifact ember fire yard s).1 ≡ t =
            ap (λ (x : Outcome String × Depot ember fire). x.1) h in
          rw (← left, ← same) found
