-- ===== src/Python/Keeps.antt =====
-- A part of the state that a piece of code leaves alone.
use fala.Prelude.{◌≡◌, refl, ◌∙◌, ap}
use fala.Python.Outcome.{Error, Outcome, ok, raise}
use fala.Python.Effect.{Action, lift, handle, ◌>>=◌}

module _ {S R : Type 0} (view : S → R) where
  -- Whatever it returns or raises, the code leaves the view of the state as it was.
  abbrev pub Keeps : {A : Type 0} → Action S A → Type 0
  Keeps body = (s : S) → view (body s).1 ≡ view s

  pub Keeps-chain :
      {A B : Type 0} (body : Action S A) (next : A → Action S B)
      → Keeps body
      → ((a : A) → Keeps (next a))
      → Keeps (body >>= next)
  Keeps-chain {A} {B} body next h k s = settled (body s).0 (body s).1 ∙ h s
    where
      settled :
          (r : Outcome A) (t : S)
          → view
              (let x : Outcome B × S = elim r [ ok a ↦ next a t | raise e ↦ (raise e, t) ] in x).1
            ≡ view t
      settled (ok a) t = k a t
      settled (raise e) t = refl

-- A chain that returns has run its first part to a result, and the rest from there.
pub chain-returned :
    {S A B : Type 0} (body : Action S A) (next : A → Action S B) (s : S) (b : B) (t : S)
    → (body >>= next) s ≡ (ok b, t)
    → (a : A) × (u : S) × (body s ≡ (ok a, u)) × (next a u ≡ (ok b, t))
chain-returned {S} {A} {B} body next s b t = settled (body s).0 (body s).1
  where
    settled :
        (r : Outcome A) (u : S)
        → (let x : Outcome B × S = elim r [ ok a ↦ next a u | raise e ↦ (raise e, u) ] in x)
          ≡ (ok b, t)
        → (a : A) × (v : S) × (Path (Outcome A × S) (r, u) (ok a, v)) × (next a v ≡ (ok b, t))
    settled (ok a) u h = (a, u, refl, h)
    settled (raise e) u h = absurd (cc (ap (λ (x : Outcome B × S). x.0) h))

-- A chain whose first part returns goes on from there.
pub chain-ok :
    {S A B : Type 0} (body : Action S A) (next : A → Action S B) (s : S) (a : A) (u : S)
    → body s ≡ (ok a, u)
    → (body >>= next) s ≡ next a u
chain-ok {S} {A} {B} body next s a u h = ap continued h
  where
    continued : Outcome A × S → Outcome B × S
    continued x = let (r, t) = x in elim r [ ok a ↦ next a t | raise e ↦ (raise e, t) ]

-- A chain whose first part raises goes no further.
pub chain-raise :
    {S A B : Type 0} (body : Action S A) (next : A → Action S B) (s : S) (e : Error) (u : S)
    → body s ≡ (raise e, u)
    → (body >>= next) s ≡ (raise e, u)
chain-raise {S} {A} {B} body next s e u h = ap continued h
  where
    continued : Outcome A × S → Outcome B × S
    continued x = let (r, t) = x in elim r [ ok a ↦ next a t | raise e ↦ (raise e, t) ]

module _ {S A : Type 0} (body : Action S A) (handler : Error → Action S A) (s t : S) where
  handled : Outcome A × S → Outcome A × S
  handled x = let (r, u) = x in elim r [ ok a ↦ (ok a, u) | raise e ↦ handler e u ]

  pub handle-ok : (a : A) → body s ≡ (ok a, t) → handle body handler s ≡ (ok a, t)
  unfolding handled
  handle-ok a h = ap handled h

  pub handle-raise : (e : Error) → body s ≡ (raise e, t) → handle body handler s ≡ handler e t
  unfolding handled
  handle-raise e h = ap handled h

-- What holds of an exception, and of going on from every value, holds of a chain that first takes an
-- outcome and leaves the state alone.
pub lift-cases :
    {S A B : Type 0} (P : Outcome B × S → Type 0) (r : Outcome A) (next : A → Action S B) (s : S)
    → ((e : Error) → P (raise e, s))
    → ((a : A) → r ≡ ok a → P (next a s))
    → P ((lift r >>= next) s)
lift-cases P (ok a) next s h k = k a refl
lift-cases P (raise e) next s h k = h e

-- What holds of the exception that the first part raises, and of the rest from the value that it returns,
-- holds of the chain.
pub chain-cases :
    {S A B : Type 0} (P : Outcome B × S → Type 0) (body : Action S A) (next : A → Action S B)
    (s : S)
    → ((e : Error) (t : S) → body s ≡ (raise e, t) → P (raise e, t))
    → ((a : A) (t : S) → body s ≡ (ok a, t) → P (next a t))
    → P ((body >>= next) s)
chain-cases {S} {A} {B} P body next s h k = settled (body s).0 (body s).1 refl
  where
    settled :
        (r : Outcome A) (u : S)
        → Path (Outcome A × S) (body s) (r, u)
        → P (let x : Outcome B × S = elim r [ ok a ↦ next a u | raise e ↦ (raise e, u) ] in x)
    settled (ok a) u e = k a u e
    settled (raise error) u e = h error u e
