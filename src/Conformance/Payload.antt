-- ===== src/Conformance/Payload.antt =====
-- python/fala/conformance.py: `check_payload`. A schema holds schemas, so the recursion takes fuel;
-- `check_payload` gives it the size of the schema. What it calls of itself is the parameter `rec`.
use fala.Prelude.{
  ℕ, zero, suc, ◌+◌, String, Bool, not, ◌&&◌, ◌||◌, Option, none, some, List, [], ◌∷◌, ◌==◌, ltb,
  eqb,
}
use fala.Prelude.Int.{pos, ltb_ℤ}
use fala.Python.Outcome.{Outcome, ok, raise, raise_if, protocol_error, out_of_fuel, ◌>>=◌, ◌>>◌}
use fala.Python.Value.{
  Value, Items, Fields, null, list, dict, nil, item, end, field, elements, get, count_items,
}
use fala.Python.Text.{decimal}
use fala.Python.Json.{Platform}
use fala.Conformance.Keywords.{
  Checker, invalid, below, json_pointer_token, check_limit, check_keywords, check_const, check_enum,
  check_type, check_string, check_number, check_required, check_additional,
}

-- `try: check_payload(…) except ProtocolError: continue`, then `matches += 1`
abbrev pub tried : Outcome (Unit {0}) → Outcome ℕ
tried (ok _) = ok 1
tried (raise (protocol_error _ _)) = ok 0
tried (raise e) = raise e

-- The three tests on `matches`; only that of the combinator at hand applies.
abbrev pub broken_count : String → ℕ → ℕ → Bool
broken_count combinator matches total =
    (combinator == "oneOf" && not (eqb matches 1))
    || (combinator == "anyOf" && ltb matches 1)
    || (combinator == "allOf" && not (eqb matches total))

module _ (rec : Checker) where
  unfoldable pub check_each : List Value → Value → String → ℕ → Outcome (Unit {0})
  check_each [] schema path index = ok tt
  check_each (v ∷ vs) schema path index = do
    rec v schema (below path (decimal index))
    check_each vs schema path (suc index)

  abbrev pub items_under : Items → Option Value → String → Outcome (Unit {0})
  items_under vs (some (dict s)) path = check_each (elements vs) (dict s) path 0
  items_under vs _ path = ok tt

  abbrev pub property_under : Option Value → Value → String → Outcome (Unit {0})
  property_under (some v) (dict s) path = rec v (dict s) path
  property_under _ _ path = ok tt

  unfoldable pub check_properties : Fields → Fields → String → Outcome (Unit {0})
  unfolding json_pointer_token
  check_properties end payload path = ok tt
  check_properties (field k child rest) payload path = do
    property_under (get k payload) child (below path (json_pointer_token k))
    check_properties rest payload path

  abbrev pub properties_under : Option Value → Fields → String → Outcome (Unit {0})
  properties_under (some (dict ps)) payload path = check_properties ps payload path
  properties_under _ payload path = ok tt

  -- `matches`, after the loop over the options
  unfoldable pub count_matches : Items → Value → String → String → Outcome ℕ
  count_matches nil payload combinator path = ok 0
  count_matches (item (dict s) os) payload combinator path = do
    n ← tried (rec payload (dict s) path)
    m ← count_matches os payload combinator path
    ok (n + m)
  count_matches (item _ os) payload combinator path = raise (invalid (below path combinator))

  abbrev pub options_under : String → Option Value → Value → String → Outcome (Unit {0})
  options_under combinator none payload path = ok tt
  options_under combinator (some null) payload path = ok tt
  options_under combinator (some (list (item o os))) payload path = do
    matches ← count_matches (item o os) payload combinator path
    raise_if (broken_count combinator matches (count_items (item o os))) (invalid path)
  options_under combinator (some _) payload path = raise (invalid (below path combinator))

  unfoldable pub check_combinator : String → Value → Fields → String → Outcome (Unit {0})
  unfolding count_matches
  check_combinator combinator payload schema path =
      options_under combinator (get combinator schema) payload path

module _ ⦃platform : Platform⦄ (rec : Checker) where
  unfoldable pub check_array : Value → Fields → String → Outcome (Unit {0})
  unfolding check_limit check_each
  check_array (list vs) schema path = do
    check_limit "minItems" (λ n. ltb_ℤ (pos (count_items vs)) n) schema path
    check_limit "maxItems" (λ n. ltb_ℤ n (pos (count_items vs))) schema path
    items_under rec vs (get "items" schema) path
  check_array _ schema path = ok tt

  unfoldable pub check_object : Value → Fields → String → Outcome (Unit {0})
  unfolding check_required check_properties check_additional
  check_object (dict payload) schema path = do
    check_required payload schema path
    properties_under rec (get "properties" schema) payload path
    check_additional payload schema path
  check_object _ schema path = ok tt

  -- the body of `check_payload`, for a schema that is a mapping
  unfoldable pub check_schema : Value → Fields → String → Outcome (Unit {0})
  check_schema payload schema path = do
    check_keywords schema path
    check_const payload schema path
    check_enum payload schema path
    check_type payload schema path
    check_string payload schema path
    check_number payload schema path
    check_array payload schema path
    check_object payload schema path
    check_combinator rec "oneOf" payload schema path
    check_combinator rec "anyOf" payload schema path
    check_combinator rec "allOf" payload schema path

  unfoldable pub check_node : Checker
  unfolding check_schema
  check_node payload (dict schema) path = check_schema payload schema path
  check_node payload _ path = raise (invalid path)

-- How many values a schema holds, itself included.
unfoldable mutual
  pub size : Value → ℕ
  size (list vs) = suc (size_items vs)
  size (dict fs) = suc (size_fields fs)
  size _ = 1

  pub size_items : Items → ℕ
  size_items nil = 0
  size_items (item child rest) = size child + size_items rest

  pub size_fields : Fields → ℕ
  size_fields end = 0
  size_fields (field _ child rest) = size child + size_fields rest

module _ ⦃platform : Platform⦄ where
  -- `check_payload` with a bound on the depth of its calls
  unfoldable pub check : ℕ → Checker
  unfolding check_node
  check zero payload schema path = raise out_of_fuel
  check (suc depth) payload schema path = check_node (check depth) payload schema path

  unfoldable pub check_payload : Checker
  unfolding check size
  check_payload payload schema path = check (size schema) payload schema path
