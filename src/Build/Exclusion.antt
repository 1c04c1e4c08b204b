-- ===== src/Build/Exclusion.antt =====
-- python/fala/_build.py: what holds at every moment while callers of `_ensure_native_artifact` run at once.
use fala.Prelude.{
  ℕ, String, ◌≡◌, refl, sym, ◌∙◌, ap, inl, inr, ◌⊎◌, arith, eq_iff, Bool, true, false, not, ◌&&◌,
  Option, none, some, [], ◌∷◌, ◌==◌, eqb, is_in, Bool-cases,
}
use fala.Host.Directory.{discard}
use fala.Build.Cache.{Names, without}
use fala.Build.Builders.{
  Phase, holding, building, pruning, done, System, set_phase, move, release, look,
}

-- The phases under the lock, those that rest on the artifact, and the build.
abbrev pub is_locked : Phase → Bool
is_locked holding = true
is_locked building = true
is_locked pruning = true
is_locked _ = false

abbrev pub is_served : Phase → Bool
is_served pruning = true
is_served done = true
is_served _ = false

abbrev pub is_building : Phase → Bool
is_building building = true
is_building _ = false

abbrev pub holds : ℕ → Option ℕ → Bool
holds j none = false
holds j (some i) = eqb j i

-- What holds of `i` at its new phase, and of every other caller where it was, holds of all.
pub everyone :
    (R : ℕ → Phase → Type 0) (i : ℕ) (phase : Phase) (phases : ℕ → Phase)
    → R i phase
    → ((j : ℕ) → eqb j i ≡ false → R j (phases j))
    → (j : ℕ) → R j (set_phase i phase phases j)
everyone R i phase phases h k j = elim (Bool-cases (eqb j i)) [
  | inl e ↦ let same : j ≡ i = ground arith in rw (e, same) h
  | inr e ↦ rw e (k j e)
]

module _ (so : String) where
  -- The callers under the lock are those that hold it; a caller that is served finds the artifact, a caller
  -- that builds does not; and it has been published at most once since it was last missing at the start.
  abbrev pub IsSafe : System → Type 0
  IsSafe s =
      ((j : ℕ) → is_locked (s.phases j) ≡ holds j s.lock)
      × ((j : ℕ) → is_served (s.phases j) ≡ true → is_in so s.names ≡ true)
      × ((j : ℕ) → is_building (s.phases j) ≡ true → is_in so s.names ≡ false)
      × ((s.built ≡ 0) ⊎ ((s.built ≡ 1) × (is_in so s.names ≡ true)))

  pub is_in-discard_other :
      (x : String) (xs : Names) → (so == x) ≡ false → is_in so (discard x xs) ≡ is_in so xs
  is_in-discard_other x [] h = refl
  is_in-discard_other x (y ∷ ys) h =
      ground (arith, eq_iff x y, eq_iff so x, eq_iff so y, is_in-discard_other x ys h)

  pub is_in-without :
      (doomed : String → Bool) (x : String) (xs : Names)
      → is_in x (without doomed xs) ≡ (is_in x xs && not (doomed x))
  is_in-without doomed x [] = refl
  is_in-without doomed x (y ∷ ys) = ground (arith, is_in-without doomed x ys, eq_iff x y)

  -- A turn of `i` that leaves the artifact as it was, and the lock of the others.
  pub same-IsSafe :
      (i : ℕ) (phase : Phase) (names : Names) (lock : Option ℕ) (s : System)
      → IsSafe s
      → is_in so names ≡ is_in so s.names
      → is_locked phase ≡ holds i lock
      → ((j : ℕ) → eqb j i ≡ false → holds j lock ≡ holds j s.lock)
      → (is_served phase ≡ true → is_in so s.names ≡ true)
      → (is_building phase ≡ true → is_in so s.names ≡ false)
      → IsSafe (record {
        names = names;
        lock = lock;
        phases = set_phase i phase s.phases;
        built = s.built;
      })
  same-IsSafe i phase names lock s (owned, served, built, count) same own others serves builds = (
    everyone (λ j q. is_locked q ≡ holds j lock) i phase s.phases own
        (λ j e. owned j ∙ sym (others j e)),
    everyone (λ j q. is_served q ≡ true → is_in so names ≡ true) i phase s.phases
        (λ h. same ∙ serves h) (λ j e h. same ∙ served j h),
    everyone (λ j q. is_building q ≡ true → is_in so names ≡ false) i phase s.phases
        (λ h. same ∙ builds h) (λ j e h. same ∙ built j h),
    rw same count,
  )

  pub one_holder :
      (i j : ℕ) (lock : Option ℕ) → holds i lock ≡ true → eqb j i ≡ false → holds j lock ≡ false
  one_holder i j none h e = refl
  one_holder i j (some k) h e = ground arith

  pub locked_building : (phase : Phase) → is_building phase ≡ true → is_locked phase ≡ true
  locked_building phase h = ground arith

  -- A move between phases that are not under the lock.
  pub move-IsSafe :
      (i : ℕ) (before after : Phase) (s : System)
      → IsSafe s
      → s.phases i ≡ before
      → is_locked before ≡ false
      → is_locked after ≡ false
      → (is_served after ≡ true → is_in so s.names ≡ true)
      → IsSafe (move i after s)
  move-IsSafe i before after s safe at free stays serves =
      same-IsSafe i after s.names s.lock s safe refl
        (stays ∙ sym free ∙ ap is_locked (sym at) ∙ safe.0 i) (λ j e. refl) serves
        (λ h. absurd (cc (stays, locked_building after h)))

  -- The end of the time under the lock.
  pub release-IsSafe :
      (i : ℕ) (before after : Phase) (names : Names) (s : System)
      → IsSafe s
      → s.phases i ≡ before
      → is_locked before ≡ true
      → is_locked after ≡ false
      → is_in so names ≡ is_in so s.names
      → (is_served after ≡ true → is_in so s.names ≡ true)
      → IsSafe (record (release i after s) { names = names })
  release-IsSafe i before after names s safe at locked stays same serves =
      same-IsSafe i after names none s safe same stays
        (λ j e. sym (one_holder i j s.lock (sym (safe.0 i) ∙ ap is_locked at ∙ locked) e)) serves
        (λ h. absurd (cc (stays, locked_building after h)))

  pub look-IsSafe :
      (i : ℕ) (before missing : Phase) (s : System)
      → IsSafe s
      → s.phases i ≡ before
      → is_locked before ≡ false
      → is_locked missing ≡ false
      → is_served missing ≡ false
      → IsSafe (look so i done missing s)
  look-IsSafe i before missing s safe at free stays idle = elim (Bool-cases (is_in so s.names)) [
    | inl e ↦ rw e (move-IsSafe i before done s safe at free refl (λ h. e))
    | inr e ↦ rw e (move-IsSafe i before missing s safe at free stays (λ h. absurd (cc (h, idle))))
  ]
