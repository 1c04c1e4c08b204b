-- ===== src/Conformance/Accepted.antt =====
-- python/fala/conformance.py: `check_payload` accepts exactly the payloads that meet a schema.
use fala.Python.Text.{str_lt, str_len, least}
use fala.Prelude.Int.{pos, ltb_ℤ, ℤ}
use fala.Conformance.Meaning.{
  is_present, has_required, has_no_others, holds_if_some, holds_of, in_bounds, is_typed, is_among,
  is_in_range, given, is_supported, is_long_enough,
}
use fala.Python.Number.{whole, number_lt, Float}
use fala.Python.Value.{
  nil, item, bool, dict, has, Items, elements, as_number, list, float, str, get, keys, int,
  value_eq, found_eq, Fields, Value,
}
use fala.Python.Json.{Platform}
use fala.Python.Outcome.{◌>>=◌, raise, ok, raise_if, ◌>>◌, is_ok, Error, Outcome}
use fala.Conformance.Keywords.{
  others_barred, check_required_keys, check_no_others, required_under, limit_under, bound_under,
  invalid, matches_name, supported_schema_keys, compared, int_of, type_matches, type_under,
  check_range, const_under, refuse_keyword, enum_under, check_limit, check_string, unsupported,
  check_number, check_bound, check_keywords,
}
use fala.Prelude.{
  ◌∙◌, [], inr, inl, Bool-cases, if◌then◌else◌, ◌∷◌, any, none, is_in, all, some, not, ◌&&◌, List,
  Option, String, Bool, refl, false, true, ◌≡◌,
}

pub both :
    (m n : Outcome (Unit {0})) (a b : Bool) → is_ok m ≡ a → is_ok n ≡ b → is_ok (m >> n) ≡ (a && b)
both (ok u) n a b h k = rw (← h) k
both (raise e) n a b h k = rw (← h) refl

and_assoc : (a b c : Bool) → (a && (b && c)) ≡ ((a && b) && c)
and_assoc true b c = refl
and_assoc false b c = refl

pub all_three :
    (m n o : Outcome (Unit {0})) (a b c : Bool)
    → is_ok m ≡ a
    → is_ok n ≡ b
    → is_ok o ≡ c
    → is_ok (m >> (n >> o)) ≡ ((a && b) && c)
all_three m n o a b c h k l = both m (n >> o) a (b && c) h (both n o b c k l) ∙ and_assoc a b c

pub unless : (b : Bool) (e : Error) → is_ok (raise_if (not b) e) ≡ b
unless true e = refl
unless false e = refl

pub raised_if : (b : Bool) (e : Error) → is_ok (raise_if b e) ≡ not b
raised_if true e = refl
raised_if false e = refl

supported_lem :
    (ks : List String) (p : String)
    → is_ok (refuse_keyword (least (unsupported ks)) p)
      ≡ all (λ k. is_in k supported_schema_keys) ks
unfolding unsupported
supported_lem [] p = refl
supported_lem (k ∷ ks) p = elim (Bool-cases (is_in k supported_schema_keys)) [
  | inl e ↦ rw e (supported_lem ks p)
  | inr e ↦ rw e (worst (least (unsupported ks)))
]
  where
    worst :
        (o : Option String)
        → is_ok (
            refuse_keyword
              (elim o [ none ↦ some k | some y ↦ some (if str_lt y k then y else k) ])
              p)
          ≡ false
    worst none = refl
    worst (some y) = refl

pub keywords_lem : (fs : Fields) (p : String) → is_ok (check_keywords fs p) ≡ is_supported fs
unfolding check_keywords
keywords_lem fs p = supported_lem (keys fs) p

pub const_lem :
    (v : Value) (o : Option Value) (p : String) → is_ok (const_under v o p) ≡ given o (value_eq v)
const_lem v none p = refl
const_lem v (some c) p = unless (value_eq v c) _

pub enum_lem :
    (v : Value) (o : Option Value) (p : String) → is_ok (enum_under v o p) ≡ given o (is_among v)
enum_lem v none p = refl
enum_lem v (some (list os)) p = unless (any (λ x. found_eq v x) (elements os)) _
enum_lem v (some _) p = refl

pub type_lem :
    (v : Value) (o : Option Value) (p : String) → is_ok (type_under v o p) ≡ given o (is_typed v)
type_lem v none p = refl
type_lem v (some (str t)) p = unless (type_matches v t) _
type_lem v (some (list ts)) p = unless (any (λ t. matches_name v t) (elements ts)) _
type_lem v (some _) p = refl

module _ ⦃platform : Platform⦄ where
  pub limit_lem :
      (key : String) (broken : ℤ → Bool) (fs : Fields) (p : String)
      → is_ok (check_limit key broken fs p)
        ≡ given (get key fs) (λ b. holds_of (λ k. not (broken k)) (int_of b))
  unfolding check_limit
  limit_lem key broken fs p = under_lem (get key fs)
    where
      read_lem :
          (r : Outcome ℤ)
          → is_ok (r >>= λ n. raise_if (broken n) (invalid p)) ≡ holds_of (λ k. not (broken k)) r
      read_lem (ok n) = raised_if (broken n) _
      read_lem (raise e) = refl

      under_lem :
          (o : Option Value)
          → is_ok (limit_under broken o p)
            ≡ given o (λ b. holds_of (λ k. not (broken k)) (int_of b))
      under_lem none = refl
      under_lem (some v) = read_lem (int_of v)

  pub string_lem :
      (v : Value) (fs : Fields) (p : String) → is_ok (check_string v fs p) ≡ is_long_enough v fs
  unfolding check_string
  string_lem (str s) fs p =
      both _ _ _ _ (limit_lem "minLength" (λ n. ltb_ℤ (pos (str_len s)) n) fs p)
        (limit_lem "maxLength" (λ n. ltb_ℤ n (pos (str_len s))) fs p)
  string_lem _ fs p = refl

bound_lem :
    (key : String) (broken : Float → Bool) (fs : Fields) (p : String)
    → is_ok (check_bound key broken fs p)
      ≡ given (get key fs) (λ b. holds_if_some (λ y. not (broken y)) (as_number b))
unfolding check_bound
bound_lem key broken fs p = under_lem (get key fs)
  where
    compared_lem :
        (o : Option Float) → is_ok (compared broken o p) ≡ holds_if_some (λ y. not (broken y)) o
    compared_lem none = refl
    compared_lem (some y) = raised_if (broken y) _

    under_lem :
        (o : Option Value)
        → is_ok (bound_under broken o p)
          ≡ given o (λ b. holds_if_some (λ y. not (broken y)) (as_number b))
    under_lem none = refl
    under_lem (some v) = compared_lem (as_number v)

range_lem : (x : Float) (fs : Fields) (p : String) → is_ok (check_range x fs p) ≡ in_bounds x fs
range_lem x fs p =
    both _ _ _ _ (bound_lem "minimum" (λ y. number_lt x y) fs p)
      (bound_lem "maximum" (λ y. number_lt y x) fs p)

pub number_lem :
    (v : Value) (fs : Fields) (p : String) → is_ok (check_number v fs p) ≡ is_in_range v fs
unfolding check_number
number_lem (int n) fs p = range_lem (whole n) fs p
number_lem (float x) fs p = range_lem x fs p
number_lem _ fs p = refl

module _ ⦃platform : Platform⦄ where
  required_keys_lem :
      (ks : Items) (payload : Fields) (p : String)
      → is_ok (check_required_keys ks payload p) ≡ all (is_present payload) (elements ks)
  unfolding check_required_keys
  required_keys_lem nil payload p = refl
  required_keys_lem (item (str key) ks) payload p =
      both _ _ _ _ (unless (has key payload) _) (required_keys_lem ks payload p)
  required_keys_lem (item _ ks) payload p = refl

  pub required_lem :
      (o : Option Value) (payload : Fields) (p : String)
      → is_ok (required_under o payload p) ≡ given o (has_required payload)
  required_lem none payload p = refl
  required_lem (some (list ks)) payload p = required_keys_lem ks payload p
  required_lem (some _) payload p = refl

  no_others_lem :
      (ks : List String) (properties : Fields) (p : String)
      → is_ok (check_no_others ks properties p) ≡ all (λ k. has k properties) ks
  unfolding check_no_others
  no_others_lem [] properties p = refl
  no_others_lem (k ∷ ks) properties p =
      both _ _ _ _ (unless (has k properties) _) (no_others_lem ks properties p)

  pub barred_lem :
      (payload : Fields) (v w : Value) (p : String)
      → is_ok (others_barred payload v w p) ≡ has_no_others payload v w
  barred_lem payload (dict properties) (bool false) p = no_others_lem (keys payload) properties p
  barred_lem payload _ _ p = refl
