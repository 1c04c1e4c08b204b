-- ===== src/Rehearsal/Policy.antt =====
-- python/fala/rehearsal.py: `_policy`. A message that quotes the repr of a value is kept up to that.
use fala.Prelude.{
  String, Bool, true, false, not, ◌||◌, Option, none, some, List, [], ◌∷◌, if◌then◌else◌, is_in,
}
use fala.Prelude.Int.{ℤ, pos, negsuc, ltb_ℤ}
use fala.Python.Number.{Float, whole, is_finite, number_lt}
use fala.Python.Outcome.{
  Outcome, ok, raise, raise_if, Error, builtin, value_error, overflow_error, ◌>>=◌, ◌>>◌,
}
use fala.Python.Value.{Value, Fields, int, float, end, field, get}

abbrev pub policy_keys : List String
policy_keys = "older_than_days" ∷ "keep_last" ∷ "safety_margin_bytes" ∷ []

-- `set(value) - {…}` is not empty
abbrev pub has_unknown : Fields → Bool
has_unknown end = false
has_unknown (field k v fs) = let rest = has_unknown fs in if is_in k policy_keys then rest else true

abbrev pub age_refused : Error
age_refused = builtin value_error "fala rehearsal: older_than_days must be finite and non-negative"

abbrev pub in_range : (below : Bool) → Option Float → Outcome Float
in_range below none = raise (builtin overflow_error "")
in_range below (some x) = if not (is_finite x) || below then raise age_refused else ok x

-- `older_than_days`, whose comparison with 0 is that of the number itself
abbrev pub policy_age : (ℤ → Option Float) → Option Value → Outcome Float
policy_age to_float (some (int n)) = in_range (ltb_ℤ n (pos 0)) (to_float n)
policy_age to_float (some (float x)) = in_range (number_lt x (whole (pos 0))) (some x)
policy_age to_float _ = raise age_refused

-- an int that has a default and a least value
abbrev pub policy_int : (default least : ℤ) → Error → Option Value → Outcome ℤ
policy_int default least e none = ok default
policy_int default least e (some (int n)) = if ltb_ℤ n least then raise e else ok n
policy_int default least e (some _) = raise e

-- What a policy comes to: the age, the runs to keep, and the bytes to leave free.
pub record Terms : Type 0 where
  pub age : Float
  pub keep : ℤ
  pub margin : ℤ

-- `_policy`
unfoldable pub policy : (ℤ → Option Float) → Fields → Outcome Terms
policy to_float value = do
  raise_if (has_unknown value) (builtin value_error "fala rehearsal: unknown policy keys: ")
  age ← policy_age to_float (get "older_than_days" value)
  keep ←
      policy_int (negsuc 0) (negsuc 0)
        (builtin value_error "fala rehearsal: keep_last must be -1 or non-negative")
        (get "keep_last" value)
  margin ←
      policy_int (pos 16777216) (pos 0)
        (builtin value_error "fala rehearsal: safety_margin_bytes must be non-negative")
        (get "safety_margin_bytes" value)
  ok (record { age = age; keep = keep; margin = margin })
