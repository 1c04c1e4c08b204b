-- ===== src/Python/Effect.antt =====
-- Code that reads and changes a state, and may raise. What was changed before an exception stays
-- changed. `run_finally` and `handle` are `try … finally` and `try … except`.
use fala.Python.Outcome.{Outcome, ok, raise, Error}

abbrev pub Action : Type 0 → Type 0 → Type 0
Action S A = S → Outcome A × S

module _ {S : Type 0} {A : Type 0} where
  abbrev pub pure : A → Action S A
  pure a s = (ok a, s)

  abbrev pub lift : Outcome A → Action S A
  lift r s = (r, s)

  abbrev pub gets : (S → A) → Action S A
  gets f s = (ok (f s), s)

  -- `try: body finally: last`, for a `last` that raises nothing
  abbrev pub run_finally : (S → S) → Action S A → Action S A
  run_finally last body s = let (r, t) = body s in (r, last t)

  -- `try: body except BaseException as e: handler`
  abbrev pub handle : Action S A → (Error → Action S A) → Action S A
  handle body handler s = let (r, t) = body s in elim r [ ok a ↦ (ok a, t) | raise e ↦ handler e t ]

abbrev pub modify : {S : Type 0} → (S → S) → Action S (Unit {0})
modify f s = (ok tt, f s)

infixl 5 ◌>>=◌
infixl 5 ◌>>◌
abbrev pub ◌>>=◌ : {S A B : Type 0} → Action S A → (A → Action S B) → Action S B
◌>>=◌ body next s = let (r, t) = body s in elim r [ ok a ↦ next a t | raise e ↦ (raise e, t) ]

abbrev pub ◌>>◌ : {S B : Type 0} → Action S (Unit {0}) → Action S B → Action S B
first >> next = first >>= (λ done. next)
