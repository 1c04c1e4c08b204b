-- ===== src/Prelude/Lists.antt =====
-- Lists measured by native numbers, with Boolean searches that run in tests.
use Prim.Native.Nat.{ℕ, suc}
use Prim.Native.String.{String}
use mathlib.Core.Bool.{Bool, true, false, ◌&&◌, ◌||◌}
use mathlib.Core.List.{List, [], ◌∷◌, ◌++◌}
use text.Mathlib.Text.{◌==◌}

module _ {ℓ} {A : Type ℓ} where
  abbrev pub length : List A → ℕ
  length [] = 0
  length (_ ∷ xs) = suc (length xs)

  -- Every element satisfies `P`.
  abbrev pub Each {κ} : (A → Type κ) → List A → Type κ
  Each P [] = Unit
  Each P (x ∷ xs) = P x × Each P xs

  pub Each-snoc {κ} :
      (P : A → Type κ) (xs : List A) (x : A) → Each P xs → P x → Each P (xs ++ x ∷ [])
  Each-snoc P [] x h k = (k, tt)
  Each-snoc P (y ∷ ys) x (here, rest) k = (here, Each-snoc P ys x rest k)

  -- Python's `any` and `all` over a generator.
  abbrev pub any : (A → Bool) → List A → Bool
  any p [] = false
  any p (x ∷ xs) = p x || any p xs

  abbrev pub all : (A → Bool) → List A → Bool
  all p [] = true
  all p (x ∷ xs) = p x && all p xs

-- `x in xs`, for a list, tuple or set of texts.
abbrev pub is_in : String → List String → Bool
is_in x [] = false
is_in x (y ∷ ys) = (x == y) || is_in x ys
