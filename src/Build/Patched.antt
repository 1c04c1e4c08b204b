-- ===== src/Build/Patched.antt =====
-- python/fala/_build.py: the patch of EmberJson is made once.
use fala.Python.Keeps.{chain-ok, chain-returned}
use fala.Python.Outcome.{runtime_error, builtin, raise, Error, ok, Outcome}
use fala.Build.Pinned.{ensure_pinned-IsFetched, checked_run-cases, ChecksOut}
use fala.Build.Sources.{
  ember_json_url, ember_json_revision, source_is_pinned, ensure_ember_json_sources, succeeded,
  ensure_pinned, ensure_patched, Sources, Tools,
}
use fala.Python.Json.{Platform}
use fala.Prelude.{refl, ◌∙◌, sym, ap, ◌⊎◌, inr, true, Bool-cases, ◌≡◌, String, inl}

module _ ⦃platform : Platform⦄ (tools : Tools) where
  open tools use {check_reverse, apply_patch}

  -- What git promises of a patch that it applies: it can be taken back, and the head stays.
  abbrev pub Applies : Type 0
  Applies =
      (s : Sources tools)
      → succeeded (apply_patch s).1 ≡ true
      → (succeeded (check_reverse (apply_patch s).0) ≡ true)
        × (source_is_pinned tools ember_json_revision (apply_patch s).0
            ≡ source_is_pinned tools ember_json_revision s)

module _ ⦃platform : Platform⦄ (tools : Tools) (promise : ChecksOut tools)
    (promise_of_patch : Applies tools) where
  open tools use {check_reverse, apply_patch}

  IsPatched : Sources tools → Outcome (Unit {0}) × Sources tools → Type 0
  IsPatched s x =
      ((t : Sources tools) × (x ≡ (ok tt, t))
        × (succeeded (check_reverse t) ≡ true)
        × (source_is_pinned tools ember_json_revision t
            ≡ source_is_pinned tools ember_json_revision s))
      ⊎ ((e : Error) × (x.0 ≡ raise e))

  ensure_patched-IsPatched : (s : Sources tools) → IsPatched s (ensure_patched tools s)
  unfolding ensure_patched IsPatched
  ensure_patched-IsPatched s = elim (Bool-cases (succeeded (check_reverse s))) [
    | inl there ↦ rw there (inl (s, refl, there, refl))
    | inr absent ↦ elim (checked_run-cases apply_patch s) [
      | inl (done, applied) ↦
          let (there, kept) = promise_of_patch s done in
          rw (absent, applied) (inl (_, refl, there, kept))
      | inr failed ↦ rw (absent, failed) (inr (_, refl))
    ]
  ]

  ensure_patched-settles :
      (s t : Sources tools)
      → ensure_patched tools s ≡ (ok tt, t)
      → (succeeded (check_reverse t) ≡ true)
        × (source_is_pinned tools ember_json_revision t
            ≡ source_is_pinned tools ember_json_revision s)
  unfolding IsPatched
  ensure_patched-settles s t h = elim (ensure_patched-IsPatched s) [
    | inl (u, e, there, kept) ↦
        let same : u ≡ t = ap (λ (x : Outcome (Unit {0}) × Sources tools). x.1) (sym e ∙ h) in
        rw (← same) (there, kept)
    | inr (error, e) ↦
        let both : raise error ≡ ok tt =
          sym e ∙ ap (λ (x : Outcome (Unit {0}) × Sources tools). x.0) h in
        absurd (cc both)
  ]

  ensure_pinned-returned :
      (url : String) (s t : Sources tools)
      → ensure_pinned tools url ember_json_revision s ≡ (ok tt, t)
      → source_is_pinned tools ember_json_revision t ≡ true
  ensure_pinned-returned url s t h =
      elim (ensure_pinned-IsFetched tools promise url ember_json_revision s) [
        | inl (pinned, e) ↦
            let same : s ≡ t = ap (λ (x : Outcome (Unit {0}) × Sources tools). x.1) (sym e ∙ h) in
            rw (← same) pinned
        | inr (inl (_, _, pinned)) ↦ rw h at pinned
        | inr (inr (_, _, (message, e))) ↦
            let both : raise (builtin runtime_error message) ≡ ok tt =
              sym e ∙ ap (λ (x : Outcome (Unit {0}) × Sources tools). x.0) h in
            absurd (cc both)
      ]

  ensure_pinned-stays :
      (url : String) (t : Sources tools)
      → source_is_pinned tools ember_json_revision t ≡ true
      → ensure_pinned tools url ember_json_revision t ≡ (ok tt, t)
  unfolding ensure_pinned
  ensure_pinned-stays url t h = rw h refl

  ensure_patched-stays :
      (t : Sources tools) → succeeded (check_reverse t) ≡ true → ensure_patched tools t ≡ (ok tt, t)
  unfolding ensure_patched
  ensure_patched-stays t h = rw h refl

  -- If git does what it promises of a checkout and of a patch: once the call has returned, EmberJson's
  -- sources are at the pinned revision and have the patch, and a second call returns and changes
  -- nothing.
  pub ensure_ember_json_sources_again :
      (s t : Sources tools)
      → ensure_ember_json_sources tools s ≡ (ok tt, t)
      → (source_is_pinned tools ember_json_revision t ≡ true)
        × (succeeded (check_reverse t) ≡ true)
        × (ensure_ember_json_sources tools t ≡ (ok tt, t))
  unfolding ensure_ember_json_sources
  ensure_ember_json_sources_again s t h =
      let (u, mid, first, last) =
        chain-returned (ensure_pinned tools ember_json_url ember_json_revision)
          (λ u. ensure_patched tools) s tt t h in
      let (there, kept) = ensure_patched-settles mid t last in
      let pinned = kept ∙ ensure_pinned-returned ember_json_url s mid first in
      (
        pinned,
        there,
        chain-ok (ensure_pinned tools ember_json_url ember_json_revision)
              (λ u. ensure_patched tools) t tt t (ensure_pinned-stays ember_json_url t pinned)
            ∙ ensure_patched-stays t there,
      )
