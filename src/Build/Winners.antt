-- ===== src/Build/Winners.antt =====
-- python/fala/_build.py: one build at most wins, whatever the schedule of the callers of
-- `_ensure_native_artifact`.
use fala.Prelude.{
  ℕ, suc, ◌≤◌, String, ◌≡◌, refl, sym, ◌∙◌, ap, inl, inr, arith, eq_refl, Bool, true, false, not,
  ◌&&◌, Option, none, some, List, [], ◌∷◌, ◌==◌, eqb, is_in, Bool-cases,
}
use fala.Python.Text.{ends_with}
use fala.Host.Directory.{discard}
use fala.Build.Cache.{Names, without, prune_stale, replace_name, is_debris, is_artifact}
use fala.Build.Builders.{
  Phase, starting, fetched, missed, waiting, holding, building, pruning, done, failed, Fate,
  proceeds, fails, killed, System, acquire, recheck, publish, turn_at, turn, run, fresh,
}
use fala.Build.Exclusion.{
  is_locked, is_served, is_building, holds, IsSafe, everyone, is_in-discard_other, is_in-without,
  same-IsSafe, one_holder, locked_building, move-IsSafe, release-IsSafe, look-IsSafe,
}

alone : (i j : ℕ) (lock : Option ℕ) → (holds i lock && (holds j lock && not (eqb i j))) ≡ false
alone i j none = refl
alone i j (some k) = ground arith

denied : (a b : Bool) → (a ≡ true → b ≡ true) → (a && not b) ≡ false
denied a b h = ground arith

refuted : (a b : Bool) → (a ≡ true → b ≡ false) → (a && b) ≡ false
refuted a b h = ground arith

pub fresh-IsSafe : (so : String) (names : Names) → IsSafe so (fresh names)
fresh-IsSafe so names = ((λ k. refl), (λ k h. absurd (cc h)), (λ k h. absurd (cc h)), inl refl)

module _ (so : String) (temp : ℕ → String) (apart : (i : ℕ) → (so == temp i) ≡ false) where
  here-prune : (names : Names) → is_in so (prune_stale so names) ≡ is_in so names
  unfolding prune_stale
  here-prune names =
      let stale : String → Bool =
        λ x. is_artifact x && (not (x == so) && not (ends_with x ".tmp.so")) in
      let debris : String → Bool = λ x. is_debris x && not (x == so) in
      ground (
        arith,
        is_in-without so debris so (without stale names),
        is_in-without so stale so names,
        eq_refl so,
      )

  here-temp : (i : ℕ) (names : Names) → is_in so (temp i ∷ names) ≡ is_in so names
  here-temp i names = rw (apart i) refl

  here-discard : (i : ℕ) (names : Names) → is_in so (discard (temp i) names) ≡ is_in so names
  here-discard i names = is_in-discard_other so (temp i) names (apart i)

  publish-IsSafe :
      (i : ℕ) (s : System) → IsSafe so s → s.phases i ≡ building → IsSafe so (publish so temp i s)
  publish-IsSafe i s (owned, served, built, count) at =
      let locked : holds i s.lock ≡ true = sym (owned i) ∙ ap is_locked at in
      let absent : is_in so s.names ≡ false = built i (rw at refl) in
      (
        everyone (λ j q. is_locked q ≡ holds j s.lock) i pruning s.phases (sym locked)
            (λ j e. owned j),
        (λ j h. rw (eq_refl so) refl),
        everyone (λ j q. is_building q ≡ true → is_in so (replace_name (temp i) so s.names) ≡ false)
            i pruning s.phases (λ h. absurd (cc h))
            (λ j e h.
              absurd (
                cc
                  (one_holder so i j s.lock locked e, owned j, locked_building so (s.phases j) h))),
        elim count [
          | inl none_built ↦ inr (ap suc none_built, rw (eq_refl so) refl)
          | inr (one_built, here) ↦ absurd (cc (absent, here))
        ],
      )

  acquire-IsSafe :
      (i : ℕ) (s : System) → IsSafe so s → s.phases i ≡ waiting → IsSafe so (acquire i s.lock s)
  acquire-IsSafe i s safe at = taken s.lock refl
    where
      taken : (lock : Option ℕ) → s.lock ≡ lock → IsSafe so (acquire i lock s)
      taken none e =
          same-IsSafe so i holding s.names (some i) s safe refl (ground arith)
            (λ j h. h ∙ sym (ap (holds j) e)) (λ h. absurd (cc h)) (λ h. absurd (cc h))
      taken (some j) e = safe

  recheck-IsSafe :
      (i : ℕ) (s : System) → IsSafe so s → s.phases i ≡ holding → IsSafe so (recheck so temp i s)
  recheck-IsSafe i s safe at =
      let locked : true ≡ holds i s.lock = ap is_locked (sym at) ∙ safe.0 i in
      elim (Bool-cases (is_in so s.names)) [
        | inl e ↦ rw e (
            same-IsSafe so i pruning s.names s.lock s safe refl locked (λ j h. refl) (λ h. e)
              (λ h. absurd (cc h)))
        | inr e ↦ rw e (
            same-IsSafe so i building (temp i ∷ s.names) s.lock s safe (here-temp i s.names) locked
              (λ j h. refl) (λ h. absurd (cc h)) (λ h. e))
      ]

  turn_at-IsSafe :
      (i : ℕ) (phase : Phase) (fate : Fate) (s : System)
      → s.phases i ≡ phase
      → IsSafe so s
      → IsSafe so (turn_at so temp i phase fate s)
  turn_at-IsSafe i done fate s at safe = safe
  turn_at-IsSafe i failed fate s at safe = safe
  turn_at-IsSafe i starting killed s at safe =
      move-IsSafe so i starting failed s safe at refl refl (λ h. absurd (cc h))
  turn_at-IsSafe i starting proceeds s at safe =
      look-IsSafe so i starting fetched s safe at refl refl refl
  turn_at-IsSafe i starting fails s at safe =
      look-IsSafe so i starting failed s safe at refl refl refl
  turn_at-IsSafe i fetched killed s at safe =
      move-IsSafe so i fetched failed s safe at refl refl (λ h. absurd (cc h))
  turn_at-IsSafe i fetched proceeds s at safe =
      look-IsSafe so i fetched missed s safe at refl refl refl
  turn_at-IsSafe i fetched fails s at safe =
      move-IsSafe so i fetched failed s safe at refl refl (λ h. absurd (cc h))
  turn_at-IsSafe i missed killed s at safe =
      move-IsSafe so i missed failed s safe at refl refl (λ h. absurd (cc h))
  turn_at-IsSafe i missed proceeds s at safe =
      look-IsSafe so i missed waiting s safe at refl refl refl
  turn_at-IsSafe i missed fails s at safe =
      move-IsSafe so i missed failed s safe at refl refl (λ h. absurd (cc h))
  turn_at-IsSafe i waiting killed s at safe =
      move-IsSafe so i waiting failed s safe at refl refl (λ h. absurd (cc h))
  turn_at-IsSafe i waiting proceeds s at safe = acquire-IsSafe i s safe at
  turn_at-IsSafe i waiting fails s at safe =
      move-IsSafe so i waiting failed s safe at refl refl (λ h. absurd (cc h))
  turn_at-IsSafe i holding killed s at safe =
      release-IsSafe so i holding failed s.names s safe at refl refl refl (λ h. absurd (cc h))
  turn_at-IsSafe i holding proceeds s at safe = recheck-IsSafe i s safe at
  turn_at-IsSafe i holding fails s at safe =
      release-IsSafe so i holding failed s.names s safe at refl refl refl (λ h. absurd (cc h))
  turn_at-IsSafe i building killed s at safe =
      release-IsSafe so i building failed s.names s safe at refl refl refl (λ h. absurd (cc h))
  turn_at-IsSafe i building proceeds s at safe = publish-IsSafe i s safe at
  turn_at-IsSafe i building fails s at safe =
      release-IsSafe so i building failed (discard (temp i) s.names) s safe at refl refl
        (here-discard i s.names) (λ h. absurd (cc h))
  turn_at-IsSafe i pruning killed s at safe =
      release-IsSafe so i pruning failed s.names s safe at refl refl refl (λ h. absurd (cc h))
  turn_at-IsSafe i pruning proceeds s at safe =
      release-IsSafe so i pruning done (prune_stale so s.names) s safe at refl refl
        (here-prune s.names) (λ h. safe.1 i (rw at refl))
  turn_at-IsSafe i pruning fails s at safe =
      release-IsSafe so i pruning failed s.names s safe at refl refl refl (λ h. absurd (cc h))

  pub run-IsSafe :
      (schedule : List (ℕ × Fate)) (s : System) → IsSafe so s → IsSafe so (run so temp schedule s)
  unfolding run turn
  run-IsSafe [] s safe = safe
  run-IsSafe ((i, fate) ∷ rest) s safe =
      run-IsSafe rest (turn so temp i fate s) (turn_at-IsSafe i (s.phases i) fate s refl safe)

  -- Callers that start together on one cache, with temporary names that differ from the artifact's: after any
  -- schedule of turns, in which tools may fail and callers may be killed, no two callers are under the lock,
  -- a caller that has returned or that is about to prune the cache finds the artifact in it, a caller that
  -- builds does not, and at most one build has published the artifact.
  pub ensure_native_safe :
      (schedule : List (ℕ × Fate)) (names : Names) (i j : ℕ)
      → let s = run so temp schedule (fresh names) in
        ((is_locked (s.phases i) && (is_locked (s.phases j) && not (eqb i j))) ≡ false)
        × ((is_served (s.phases i) && not (is_in so s.names)) ≡ false)
        × ((is_building (s.phases i) && is_in so s.names) ≡ false)
        × (s.built ≤ 1)
  ensure_native_safe schedule names i j =
      let s = run so temp schedule (fresh names) in
      let (owned, served, built, count) =
        run-IsSafe schedule (fresh names) (fresh-IsSafe so names) in
      (
        rw (owned i, owned j) (alone i j s.lock),
        denied _ _ (served i),
        refuted _ _ (built i),
        elim count [ inl e ↦ ground arith | inr (e, h) ↦ ground arith ],
      )
