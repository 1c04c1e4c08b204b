-- ===== src/Python/Number.antt =====
-- Python's numbers. A finite double is a whole number over a power of two, so `finite m k` is m / 2^k
-- exactly, and Python compares an int with a float exactly too.
use fala.Prelude.{ℕ, ◌^◌, Bool, true, false, ◌≡◌, refl}
use fala.Prelude.Int.{ℤ, pos, negsuc, ltb_ℤ, eqb_ℤ, scale}

pub data Float : Type 0 where
  finite : ℤ → ℕ → Float
  infinity minus_infinity nan : Float

-- `math.isfinite`
abbrev pub is_finite : Float → Bool
is_finite (finite _ _) = true
is_finite _ = false

-- An int as a number to compare with.
abbrev pub whole : ℤ → Float
whole n = finite n 0

-- `a < b`
unfoldable pub number_lt : Float → Float → Bool
number_lt (finite m j) (finite n k) = ltb_ℤ (scale m (2 ^ k)) (scale n (2 ^ j))
number_lt (finite m j) infinity = true
number_lt minus_infinity (finite n k) = true
number_lt minus_infinity infinity = true
number_lt _ _ = false

-- `a == b`
unfoldable pub number_eq : Float → Float → Bool
number_eq (finite m j) (finite n k) = eqb_ℤ (scale m (2 ^ k)) (scale n (2 ^ j))
number_eq infinity infinity = true
number_eq minus_infinity minus_infinity = true
number_eq _ _ = false

-- -3/2 < -1 and 2 == 2.0
number_tests : (number_lt (finite (negsuc 2) 1) (whole (negsuc 0)) ≡ true)
unfolding number_lt
number_tests = refl

number_eq_test : number_eq (whole (pos 2)) (finite (pos 4) 1) ≡ true
unfolding number_eq
number_eq_test = refl
