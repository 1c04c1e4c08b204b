-- ===== src/Python/Order.antt =====
-- The order of texts by code points is strict and total.
use Prim.Native.Nat.{Ordering, compare as compare_ℕ}
use Prim.Native.Char.{Char, code}
use mathlib.Core.Path.{ap₂}
use Prim.Native.String.compare
use Prim.Native.String.{compare, then}
use Prim.Native.Nat.compare as compare_ℕ
use text.Mathlib.TextEquality.{path_by_compare, codes_equal}
use text.Mathlib.TextPositions.{compare_self}
use text.Mathlib.Text.{is_eq}
use fala.Prelude.{
  ◌==◌, ℕ, zero, suc, String, Bool, true, false, ◌≡◌, refl, ap, sym, ◌∙◌, ◌≢◌, ◌⊎◌, inl, inr,
}
use fala.Python.Text.{str_lt}

flip : Ordering → Ordering
flip Ordering.lt = Ordering.gt
flip Ordering.eq = Ordering.eq
flip Ordering.gt = Ordering.lt

compare_ℕ-flip : (m n : ℕ) → compare_ℕ n m ≡ flip (compare_ℕ m n)
unfolding flip
compare_ℕ-flip zero zero = compare_ℕ.zero-zero ∙ ap flip (sym compare_ℕ.zero-zero)
compare_ℕ-flip zero (suc n) = compare_ℕ.suc-zero n ∙ ap flip (sym (compare_ℕ.zero-suc n))
compare_ℕ-flip (suc m) zero = compare_ℕ.zero-suc m ∙ ap flip (sym (compare_ℕ.suc-zero m))
compare_ℕ-flip (suc m) (suc n) =
    compare_ℕ.suc-suc n m ∙ compare_ℕ-flip m n ∙ ap flip (sym (compare_ℕ.suc-suc m n))

not-eq-lt : Ordering.eq ≢ Ordering.lt
not-eq-lt h = absurd (cc h)

not-gt-lt : Ordering.gt ≢ Ordering.lt
not-gt-lt h = absurd (cc h)

compare_ℕ_trans :
    (m n k : ℕ)
    → compare_ℕ m n ≡ Ordering.lt
    → compare_ℕ n k ≡ Ordering.lt
    → compare_ℕ m k ≡ Ordering.lt
compare_ℕ_trans zero zero k h g = absurd (not-eq-lt (sym compare_ℕ.zero-zero ∙ h))
compare_ℕ_trans zero (suc n) zero h g = absurd (not-gt-lt (sym (compare_ℕ.suc-zero n) ∙ g))
compare_ℕ_trans zero (suc n) (suc k) h g = compare_ℕ.zero-suc k
compare_ℕ_trans (suc m) zero k h g = absurd (not-gt-lt (sym (compare_ℕ.suc-zero m) ∙ h))
compare_ℕ_trans (suc m) (suc n) zero h g = absurd (not-gt-lt (sym (compare_ℕ.suc-zero n) ∙ g))
compare_ℕ_trans (suc m) (suc n) (suc k) h g =
    compare_ℕ.suc-suc m k
    ∙ compare_ℕ_trans m n k (sym (compare_ℕ.suc-suc m n) ∙ h) (sym (compare_ℕ.suc-suc n k) ∙ g)

then-flip : (o r : Ordering) → then (flip o) (flip r) ≡ flip (then o r)
unfolding flip
then-flip Ordering.lt r = refl
then-flip Ordering.eq r = refl
then-flip Ordering.gt r = refl

compare-flip : (s t : String) → compare t s ≡ flip (compare s t)
unfolding flip
compare-flip String.[] String.[] = compare.nil-nil ∙ ap flip (sym compare.nil-nil)
compare-flip String.[] (String.◌∷◌ d t) =
    compare.cons-nil d t ∙ ap flip (sym (compare.nil-cons d t))
compare-flip (String.◌∷◌ c s) String.[] =
    compare.nil-cons c s ∙ ap flip (sym (compare.cons-nil c s))
compare-flip (String.◌∷◌ c s) (String.◌∷◌ d t) =
    compare.cons-cons d c t s
    ∙ ap₂ then (compare_ℕ-flip (code c) (code d)) (compare-flip s t)
    ∙ then-flip (compare_ℕ (code c) (code d)) (compare s t)
    ∙ ap flip (sym (compare.cons-cons c d s t))

then-lt :
    (o r : Ordering)
    → then o r ≡ Ordering.lt
    → (o ≡ Ordering.lt) ⊎ ((o ≡ Ordering.eq) × (r ≡ Ordering.lt))
then-lt Ordering.lt r h = inl refl
then-lt Ordering.eq r h = inr (refl, h)
then-lt Ordering.gt r h = absurd (not-gt-lt h)

heads :
    (c d : Char) (s t : String)
    → compare (String.◌∷◌ c s) (String.◌∷◌ d t) ≡ Ordering.lt
    → (compare_ℕ (code c) (code d) ≡ Ordering.lt) ⊎ ((c ≡ d) × (compare s t ≡ Ordering.lt))
heads c d s t h =
    elim (then-lt (compare_ℕ (code c) (code d)) (compare s t)
      (sym (compare.cons-cons c d s t) ∙ h)) [
        | inl l ↦ inl l
        | inr (e, l) ↦ inr (codes_equal c d e, l)
      ]

first_lt :
    (c d : Char) (s t : String)
    → compare_ℕ (code c) (code d) ≡ Ordering.lt
    → compare (String.◌∷◌ c s) (String.◌∷◌ d t) ≡ Ordering.lt
first_lt c d s t h = compare.cons-cons c d s t ∙ ap (λ o. then o (compare s t)) h

rest_lt :
    (c d : Char) (s t : String)
    → c ≡ d
    → compare s t ≡ Ordering.lt
    → compare (String.◌∷◌ c s) (String.◌∷◌ d t) ≡ Ordering.lt
rest_lt c d s t e h =
    compare.cons-cons c d s t
    ∙ ap₂ then (ap (λ x. compare_ℕ (code c) (code x)) (sym e) ∙ compare_self (code c)) h

compare_trans :
    (s t u : String)
    → compare s t ≡ Ordering.lt
    → compare t u ≡ Ordering.lt
    → compare s u ≡ Ordering.lt
compare_trans String.[] String.[] u h g = absurd (not-eq-lt (sym compare.nil-nil ∙ h))
compare_trans String.[] (String.◌∷◌ d t) String.[] h g =
    absurd (not-gt-lt (sym (compare.cons-nil d t) ∙ g))
compare_trans String.[] (String.◌∷◌ d t) (String.◌∷◌ e u) h g = compare.nil-cons e u
compare_trans (String.◌∷◌ c s) String.[] u h g = absurd (not-gt-lt (sym (compare.cons-nil c s) ∙ h))
compare_trans (String.◌∷◌ c s) (String.◌∷◌ d t) String.[] h g =
    absurd (not-gt-lt (sym (compare.cons-nil d t) ∙ g))
compare_trans (String.◌∷◌ c s) (String.◌∷◌ d t) (String.◌∷◌ e u) h g = elim (heads c d s t h) [
  | inl l ↦ elim (heads d e t u g) [
    | inl m ↦ first_lt c e s u (compare_ℕ_trans (code c) (code d) (code e) l m)
    | inr (p, m) ↦ first_lt c e s u (ap (λ x. compare_ℕ (code c) (code x)) (sym p) ∙ l)
  ]
  | inr (q, l) ↦ elim (heads d e t u g) [
    | inl m ↦ first_lt c e s u (ap (λ x. compare_ℕ (code x) (code e)) q ∙ m)
    | inr (p, m) ↦ rest_lt c e s u (q ∙ p) (compare_trans s t u l m)
  ]
]

-- `str_lt` read from the comparison, and back
lt_if : (s t : String) → compare s t ≡ Ordering.lt → str_lt s t ≡ true
lt_if s t h = ap (λ o. elim o [ Ordering.lt ↦ true | _ ↦ false ]) h

not_lt_if : (s t : String) → compare s t ≡ Ordering.gt → str_lt s t ≡ false
not_lt_if s t h = ap (λ o. elim o [ Ordering.lt ↦ true | _ ↦ false ]) h

if_lt : (s t : String) → str_lt s t ≡ true → compare s t ≡ Ordering.lt
if_lt s t h = from (compare s t) h
  where
    from :
        (o : Ordering)
        → ◌≡◌ {A = Bool} (elim o [ Ordering.lt ↦ true | _ ↦ false ]) true
        → o ≡ Ordering.lt
    from Ordering.lt h = refl
    from Ordering.eq h = absurd (cc h)
    from Ordering.gt h = absurd (cc h)

pub str_lt-different : (s t : String) → str_lt s t ≡ true → (s == t) ≡ false
str_lt-different s t h = ap is_eq (if_lt s t h)

pub str_lt_trans : (s t u : String) → str_lt s t ≡ true → str_lt t u ≡ true → str_lt s u ≡ true
str_lt_trans s t u h g = lt_if s u (compare_trans s t u (if_lt s t h) (if_lt t u g))

-- One of two different texts precedes the other, and not the other way round.
pub str_lt-cases :
    (s t : String)
    → ((str_lt s t ≡ true) × (str_lt t s ≡ false))
      ⊎ (((str_lt s t ≡ false) × (str_lt t s ≡ true)) ⊎ (s ≡ t))
unfolding flip
str_lt-cases s t = elim (compare-cases (compare s t)) [
  | inl e ↦ inl (lt_if s t e, not_lt_if t s (compare-flip s t ∙ ap flip e))
  | inr (inl e) ↦ inr (inl (not_lt_if s t e, lt_if t s (compare-flip s t ∙ ap flip e)))
  | inr (inr e) ↦ inr (inr (path_by_compare s t e))
]
  where
    compare-cases : (o : Ordering) → (o ≡ Ordering.lt) ⊎ ((o ≡ Ordering.gt) ⊎ (o ≡ Ordering.eq))
    compare-cases Ordering.lt = inl refl
    compare-cases Ordering.gt = inr (inl refl)
    compare-cases Ordering.eq = inr (inr refl)
