-- ===== src/Conformance/Meaning.antt =====
-- python/fala/conformance.py: what the schemas of `check_payload` mean. Which payloads meet a schema is
-- one conjunction of conditions, without pointers, without an order of checks and without exceptions.
-- `judge` is the verdict on a payload and a schema inside.
use fala.Prelude.{
  ℕ, suc, String, Bool, true, false, not, ◌&&◌, Option, none, some, any, all, is_in, eqb, ltb,
}
use fala.Prelude.Int.{pos, ltb_ℤ}
use fala.Python.Outcome.{Outcome, ok, raise}
use fala.Python.Number.{Float, whole, number_lt}
use fala.Python.Value.{
  Value, Items, Fields, null, bool, int, float, str, list, dict, nil, item, end, field, elements,
  keys, get, has, as_number, value_eq, found_eq, count_items,
}
use fala.Python.Text.{str_len}
use fala.Python.Json.{Platform}
use fala.Conformance.Keywords.{supported_schema_keys, type_matches, matches_name, int_of, or_null}
use fala.Conformance.Verdicts.{Verdict, accepted, refused, is_accepted}

abbrev pub Judge : Type 0
Judge = Value → Value → Verdict (Unit {0})

-- A keyword that is not there asks nothing.
abbrev pub given : Option Value → (Value → Bool) → Bool
given none condition = true
given (some v) condition = condition v

-- Every keyword is supported.
abbrev pub is_supported : Fields → Bool
is_supported schema = all (λ k. is_in k supported_schema_keys) (keys schema)

abbrev pub is_among : Value → Value → Bool
is_among payload (list options) = any (λ x. found_eq payload x) (elements options)
is_among payload _ = false

-- A `type` that is neither a text nor a list asks nothing.
abbrev pub is_typed : Value → Value → Bool
is_typed payload (str t) = type_matches payload t
is_typed payload (list ts) = any (λ t. matches_name payload t) (elements ts)
is_typed payload _ = true

abbrev pub holds_of : {A : Type 0} → (A → Bool) → Outcome A → Bool
holds_of condition (ok a) = condition a
holds_of condition (raise e) = false

abbrev pub holds_if_some : {A : Type 0} → (A → Bool) → Option A → Bool
holds_if_some condition none = false
holds_if_some condition (some a) = condition a

module _ ⦃platform : Platform⦄ where
  -- A bound that is not an integer is met by nothing.
  abbrev pub between : (least most : String) → ℕ → Fields → Bool
  between least most n schema =
      given (get least schema) (λ b. holds_of (λ k. not (ltb_ℤ (pos n) k)) (int_of b))
      && given (get most schema) (λ b. holds_of (λ k. not (ltb_ℤ k (pos n))) (int_of b))

  abbrev pub is_long_enough : Value → Fields → Bool
  is_long_enough (str s) schema = between "minLength" "maxLength" (str_len s) schema
  is_long_enough _ schema = true

abbrev pub in_bounds : Float → Fields → Bool
in_bounds x schema =
    given (get "minimum" schema) (λ b. holds_if_some (λ y. not (number_lt x y)) (as_number b))
    && given (get "maximum" schema) (λ b. holds_if_some (λ y. not (number_lt y x)) (as_number b))

-- A Boolean is no number.
abbrev pub is_in_range : Value → Fields → Bool
is_in_range (int n) schema = in_bounds (whole n) schema
is_in_range (float x) schema = in_bounds x schema
is_in_range _ schema = true

abbrev pub is_present : Fields → Value → Bool
is_present payload (str key) = has key payload
is_present payload _ = false

abbrev pub has_required : Fields → Value → Bool
has_required payload (list ks) = all (is_present payload) (elements ks)
has_required payload _ = true

-- No key besides those of `properties`, if `additionalProperties` is false.
abbrev pub has_no_others : Fields → Value → Value → Bool
has_no_others payload (dict properties) (bool false) = all (λ k. has k properties) (keys payload)
has_no_others payload _ _ = true

module _ (judge : Judge) where
  abbrev pub each_meets : Items → Value → Bool
  each_meets vs (dict s) = all (λ v. is_accepted (judge v (dict s))) (elements vs)
  each_meets vs _ = true

  abbrev pub property_meets : Option Value → Value → Bool
  property_meets (some v) (dict s) = is_accepted (judge v (dict s))
  property_meets _ _ = true

  abbrev pub every_property : Fields → Fields → Bool
  every_property end payload = true
  every_property (field k child rest) payload =
      property_meets (get k payload) child && every_property rest payload

  abbrev pub properties_meet : Fields → Value → Bool
  properties_meet payload (dict properties) = every_property properties payload
  properties_meet payload _ = true

  abbrev pub counted : Verdict (Unit {0}) → Option ℕ → Option ℕ
  counted (accepted _) (some n) = some (suc n)
  counted refused (some n) = some n
  counted _ _ = none

  -- how many options a payload meets; `none` if one is no object, or crashes
  abbrev pub matches : Items → Value → Option ℕ
  matches nil payload = some 0
  matches (item (dict s) os) payload = counted (judge payload (dict s)) (matches os payload)
  matches (item _ os) payload = none

  -- the options are absent, or a list with something in it that passes the test on two counts
  abbrev pub options_meet : (ℕ → ℕ → Bool) → Value → Option Value → Bool
  options_meet test payload none = true
  options_meet test payload (some null) = true
  options_meet test payload (some (list (item o os))) =
      holds_if_some (λ n. test n (count_items (item o os))) (matches (item o os) payload)
  options_meet test payload (some _) = false

module _ ⦃platform : Platform⦄ (judge : Judge) where
  abbrev pub array_meets : Value → Fields → Bool
  array_meets (list vs) schema =
      between "minItems" "maxItems" (count_items vs) schema
      && given (get "items" schema) (each_meets judge vs)
  array_meets _ schema = true

  abbrev pub object_meets : Value → Fields → Bool
  object_meets (dict payload) schema =
      given (get "required" schema) (has_required payload)
      && (given (get "properties" schema) (properties_meet judge payload)
          && has_no_others payload (or_null (get "properties" schema))
              (or_null (get "additionalProperties" schema)))
  object_meets _ schema = true

  unfoldable pub meets : Value → Fields → Bool
  meets payload schema =
      is_supported schema
      && (given (get "const" schema) (value_eq payload)
          && (given (get "enum" schema) (is_among payload)
              && (given (get "type" schema) (is_typed payload)
                  && (is_long_enough payload schema
                      && (is_in_range payload schema
                          && (array_meets payload schema
                              && (object_meets payload schema
                                  && (options_meet judge (λ n total. eqb n 1) payload
                                        (get "oneOf" schema)
                                      && (options_meet judge (λ n total. ltb 0 n) payload
                                            (get "anyOf" schema)
                                          && options_meet judge (λ n total. eqb n total) payload
                                              (get "allOf" schema))))))))))

  -- What is no object is no schema.
  abbrev pub meets_schema : Value → Value → Bool
  meets_schema payload (dict schema) = meets payload schema
  meets_schema payload _ = false
