-- ===== src/Conformance/Verdicts.antt =====
-- python/fala/conformance.py: the verdict of `check_payload`, which is what is left of an outcome without
-- its pointer. It does not depend on the path that the call is given.
use fala.Python.Text.{least}
use fala.Prelude.Int.{ℤ}
use fala.Python.Value.{
  keys, elements, as_number, get, value_eq, found_eq, list, float, int, str, Fields, Value,
}
use fala.Python.Number.{whole, Float}
use fala.Python.Json.{Platform}
use fala.Conformance.Keywords.{
  matches_name, type_matches, unsupported, bound_under, int_of, type_under, compared, limit_under,
  const_under, refuse_keyword, enum_under, invalid, check_range, check_const, check_type,
  check_bound, check_keywords, check_number, check_limit, check_enum, check_string, Checker,
}
use mathlib.Core.Path.{ap₂, fun_ext}
use fala.Python.Outcome.{out_of_fuel, builtin, protocol_error, raise, raise_if, ok, Outcome, ◌>>=◌}
use fala.Prelude.{any, not, some, refl, Option, sym, ◌≡◌, ◌∙◌, false, String, true, Bool, none}

-- A ProtocolError refuses; any other exception is a crash.
pub data Verdict (A : Type 0) : Type 0 where
  accepted : A → Verdict A
  refused : Verdict A
  crashed : Verdict A

abbrev pub verdict : {A : Type 0} → Outcome A → Verdict A
verdict (ok a) = accepted a
verdict (raise (protocol_error _ _)) = refused
verdict (raise (builtin _ _)) = crashed
verdict (raise out_of_fuel) = crashed

abbrev pub is_accepted : {A : Type 0} → Verdict A → Bool
is_accepted (accepted _) = true
is_accepted _ = false

module _ {A B : Type 0} where
  abbrev then_verdict : Verdict A → (A → Verdict B) → Verdict B
  then_verdict (accepted a) k = k a
  then_verdict refused k = refused
  then_verdict crashed k = crashed

  verdict-bind :
      (m : Outcome A) (f : A → Outcome B)
      → verdict (m >>= f) ≡ then_verdict (verdict m) (λ a. verdict (f a))
  verdict-bind (ok a) f = refl
  verdict-bind (raise (protocol_error _ _)) f = refl
  verdict-bind (raise (builtin _ _)) f = refl
  verdict-bind (raise out_of_fuel) f = refl

  -- Chains whose parts have the same verdicts have the same verdict.
  pub alike :
      (m n : Outcome A) (f g : A → Outcome B)
      → verdict m ≡ verdict n
      → ((a : A) → verdict (f a) ≡ verdict (g a))
      → verdict (m >>= f) ≡ verdict (n >>= g)
  alike m n f g h k = verdict-bind m f ∙ ap₂ then_verdict h (fun_ext k) ∙ sym (verdict-bind n g)

pub refused_alike :
    (b : Bool) (p q : String) → verdict (raise_if b (invalid p)) ≡ verdict (raise_if b (invalid q))
refused_alike true p q = refl
refused_alike false p q = refl

-- The path does not matter to the verdict.
abbrev pub PathFree : Checker → Type 0
PathFree c = (v s : Value) (p q : String) → verdict (c v s p) ≡ verdict (c v s q)

module _ ⦃platform : Platform⦄ where
  pub limit_alike :
      (key : String) (broken : ℤ → Bool) (fs : Fields) (p q : String)
      → verdict (check_limit key broken fs p) ≡ verdict (check_limit key broken fs q)
  unfolding check_limit
  limit_alike key broken fs p q = under_alike (get key fs)
    where
      under_alike :
          (o : Option Value) → verdict (limit_under broken o p) ≡ verdict (limit_under broken o q)
      under_alike none = refl
      under_alike (some v) =
          alike (int_of v) (int_of v) _ _ refl (λ n. refused_alike (broken n) p q)

  pub keywords_alike :
      (fs : Fields) (p q : String) → verdict (check_keywords fs p) ≡ verdict (check_keywords fs q)
  unfolding check_keywords
  keywords_alike fs p q = refuse_alike (least (unsupported (keys fs)))
    where
      refuse_alike :
          (o : Option String) → verdict (refuse_keyword o p) ≡ verdict (refuse_keyword o q)
      refuse_alike none = refl
      refuse_alike (some k) = refl

  pub const_alike :
      (v : Value) (fs : Fields) (p q : String)
      → verdict (check_const v fs p) ≡ verdict (check_const v fs q)
  unfolding check_const
  const_alike v fs p q = under_alike (get "const" fs)
    where
      under_alike : (o : Option Value) → verdict (const_under v o p) ≡ verdict (const_under v o q)
      under_alike none = refl
      under_alike (some c) = refused_alike (not (value_eq v c)) p q

  pub enum_alike :
      (v : Value) (fs : Fields) (p q : String)
      → verdict (check_enum v fs p) ≡ verdict (check_enum v fs q)
  unfolding check_enum
  enum_alike v fs p q = under_alike (get "enum" fs)
    where
      under_alike : (o : Option Value) → verdict (enum_under v o p) ≡ verdict (enum_under v o q)
      under_alike none = refl
      under_alike (some (list os)) = refused_alike (not (any (λ x. found_eq v x) (elements os))) p q
      under_alike (some _) = refl

  pub type_alike :
      (v : Value) (fs : Fields) (p q : String)
      → verdict (check_type v fs p) ≡ verdict (check_type v fs q)
  unfolding check_type
  type_alike v fs p q = under_alike (get "type" fs)
    where
      under_alike : (o : Option Value) → verdict (type_under v o p) ≡ verdict (type_under v o q)
      under_alike (some (str t)) = refused_alike (not (type_matches v t)) p q
      under_alike (some (list ts)) =
          refused_alike (not (any (λ t. matches_name v t) (elements ts))) p q
      under_alike _ = refl

  bound_alike :
      (key : String) (broken : Float → Bool) (fs : Fields) (p q : String)
      → verdict (check_bound key broken fs p) ≡ verdict (check_bound key broken fs q)
  unfolding check_bound
  bound_alike key broken fs p q = under_alike (get key fs)
    where
      compared_alike :
          (o : Option Float) → verdict (compared broken o p) ≡ verdict (compared broken o q)
      compared_alike none = refl
      compared_alike (some y) = refused_alike (broken y) p q

      under_alike :
          (o : Option Value) → verdict (bound_under broken o p) ≡ verdict (bound_under broken o q)
      under_alike none = refl
      under_alike (some v) = compared_alike (as_number v)

  pub string_alike :
      (v : Value) (fs : Fields) (p q : String)
      → verdict (check_string v fs p) ≡ verdict (check_string v fs q)
  unfolding check_string
  string_alike (str s) fs p q =
      alike (check_limit "minLength" _ fs p) (check_limit "minLength" _ fs q) _ _
        (limit_alike "minLength" _ fs p q) (λ u. limit_alike "maxLength" _ fs p q)
  string_alike _ fs p q = refl

  range_alike :
      (x : Float) (fs : Fields) (p q : String)
      → verdict (check_range x fs p) ≡ verdict (check_range x fs q)
  range_alike x fs p q =
      alike (check_bound "minimum" _ fs p) (check_bound "minimum" _ fs q) _ _
        (bound_alike "minimum" _ fs p q) (λ u. bound_alike "maximum" _ fs p q)

  pub number_alike :
      (v : Value) (fs : Fields) (p q : String)
      → verdict (check_number v fs p) ≡ verdict (check_number v fs q)
  unfolding check_number
  number_alike (int n) fs p q = range_alike (whole n) fs p q
  number_alike (float x) fs p q = range_alike x fs p q
  number_alike _ fs p q = refl
