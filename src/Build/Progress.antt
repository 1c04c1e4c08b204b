-- ===== src/Build/Progress.antt =====
-- python/fala/_build.py: the callers of `_ensure_native_artifact` never wait for ever.
use fala.Prelude.{
  ℕ, ◌<◌, ◌≤◌, String, ◌≡◌, refl, ◌∙◌, ap, inl, inr, arith, Bool, true, false, none, some, List,
  ◌==◌, Option-cases,
}
use fala.Build.Cache.{Names}
use fala.Build.Builders.{
  Phase, starting, fetched, missed, waiting, holding, building, pruning, done, failed, Fate,
  proceeds, System, turn_at, turn, run, fresh,
}
use fala.Build.Exclusion.{is_locked, holds}
use fala.Build.Winners.{fresh-IsSafe, run-IsSafe}

-- How many turns a caller has before it at most.
abbrev pub turns_left : Phase → ℕ
turns_left starting = 7
turns_left fetched = 6
turns_left missed = 5
turns_left waiting = 4
turns_left holding = 3
turns_left building = 2
turns_left pruning = 1
turns_left done = 0
turns_left failed = 0

abbrev pub is_over : Phase → Bool
is_over done = true
is_over failed = true
is_over _ = false

at_most_seven : (phase : Phase) → turns_left phase ≤ 7
at_most_seven phase = ground arith

holds_own : (j : ℕ) → holds j (some j) ≡ true
holds_own j = ground arith

open_locked : (phase : Phase) → is_locked phase ≡ true → is_over phase ≡ false
open_locked phase h = ground arith

module _ (so : String) (temp : ℕ → String) where
  -- A caller that is not over and does not wait for a lock that is taken comes nearer to its end.
  advance :
      (i : ℕ) (phase : Phase) (s : System)
      → is_over phase ≡ false
      → (phase ≡ waiting → s.lock ≡ none)
      → turns_left ((turn_at so temp i phase proceeds s).phases i) < turns_left phase
  advance i starting s h free = ground arith
  advance i fetched s h free = ground arith
  advance i missed s h free = ground arith
  advance i waiting s h free = rw (free refl) (ground arith)
  advance i holding s h free = ground arith
  advance i building s h free = ground arith
  advance i pruning s h free = ground arith
  advance i done s h free = absurd (cc h)
  advance i failed s h free = absurd (cc h)

  module _ (apart : (i : ℕ) → (so == temp i) ≡ false) where
    -- Whenever a caller has neither returned nor raised, after whatever schedule, there is a caller whose next
    -- turn, if nothing fails, brings it nearer to its end: each has at most seven turns.
    pub ensure_native_progress :
        (schedule : List (ℕ × Fate)) (names : Names) (i : ℕ)
        → is_over ((run so temp schedule (fresh names)).phases i) ≡ false
        → (j : ℕ) × (turns_left
              ((turn so temp j proceeds (run so temp schedule (fresh names))).phases j)
            < turns_left ((run so temp schedule (fresh names)).phases j))
          × (turns_left ((run so temp schedule (fresh names)).phases j) ≤ 7)
    unfolding turn
    ensure_native_progress schedule names i h =
        let s = run so temp schedule (fresh names) in
        let (owned, _, _, _) =
          run-IsSafe so temp apart schedule (fresh names) (fresh-IsSafe so names) in
        elim (Option-cases s.lock) [
          | inl free ↦ (i, advance i (s.phases i) s h (λ e. free), at_most_seven (s.phases i))
          | inr (j, taken) ↦
              let locked : is_locked (s.phases j) ≡ true = owned j ∙ rw taken (holds_own j) in
              (
                j,
                advance j (s.phases j) s (open_locked (s.phases j) locked)
                    (λ e. absurd (cc (locked, ap is_locked e))),
                at_most_seven (s.phases j),
              )
        ]
