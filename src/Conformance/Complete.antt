-- ===== src/Conformance/Complete.antt =====
-- python/fala/conformance.py: `check_payload` accepts exactly the payloads that meet a schema.
use mathlib.Core.Path.{ap₂}
use fala.Prelude.Int.{pos, ltb_ℤ}
use fala.Conformance.Accepted.{
  barred_lem, required_lem, all_three, number_lem, string_lem, type_lem, enum_lem, raised_if,
  const_lem, keywords_lem, limit_lem, both,
}
use fala.Conformance.Pathless.{check_payload-PathFree}
use fala.Conformance.Termination.{check_payload-eq}
use fala.Conformance.Verdicts.{verdict, is_accepted}
use fala.Conformance.Payload.{
  check_combinator, options_under, broken_count, tried, check_object, check_array, property_under,
  count_matches, check_each, check_properties, check_node, properties_under, items_under,
  check_payload,
}
use fala.Conformance.Meaning.{
  holds_if_some, options_meet, counted, object_meets, meets, matches, property_meets,
  every_property, array_meets, properties_meet, each_meets, meets_schema, given, Judge,
}
use fala.Python.Value.{
  null, count_items, end, nil, get, field, item, list, dict, elements, Items, Fields, Value,
}
use fala.Conformance.Keywords.{
  or_null, check_type, invalid, check_enum, check_additional, check_const, check_required, Checker,
}
use fala.Python.Json.{Platform}
use fala.Python.Outcome.{
  out_of_fuel, builtin, raise_if, protocol_error, ◌>>=◌, raise, ok, is_ok, Outcome,
}
use fala.Prelude.{
  [], arith, ◌+◌, ltb, eqb, suc, none, some, not, ◌∷◌, Bool, ap, ℕ, all, String, List, ◌≡◌, Option,
  refl, ◌∙◌,
}

is_ok-verdict : {A : Type 0} (m : Outcome A) → is_ok m ≡ is_accepted (verdict m)
is_ok-verdict (ok a) = refl
is_ok-verdict (raise (protocol_error _ _)) = refl
is_ok-verdict (raise (builtin _ _)) = refl
is_ok-verdict (raise out_of_fuel) = refl

module _ ⦃platform : Platform⦄ where
  module _ (c : Checker) (judge : Judge)
      (judged : (v s : Value) (p : String) → verdict (c v s p) ≡ judge v s) where
    judged_ok : (v s : Value) (p : String) → is_ok (c v s p) ≡ is_accepted (judge v s)
    judged_ok v s p = is_ok-verdict (c v s p) ∙ ap is_accepted (judged v s p)

    each_lem :
        (vs : List Value) (s : Value) (p : String) (i : ℕ)
        → is_ok (check_each c vs s p i) ≡ all (λ v. is_accepted (judge v s)) vs
    unfolding check_each
    each_lem [] s p i = refl
    each_lem (v ∷ vs) s p i = both _ _ _ _ (judged_ok v s _) (each_lem vs s p (suc i))

    items_lem :
        (vs : Items) (o : Option Value) (p : String)
        → is_ok (items_under c vs o p) ≡ given o (each_meets judge vs)
    items_lem vs none p = refl
    items_lem vs (some (dict s)) p = each_lem (elements vs) (dict s) p 0
    items_lem vs (some _) p = refl

    property_lem :
        (o : Option Value) (child : Value) (p : String)
        → is_ok (property_under c o child p) ≡ property_meets judge o child
    property_lem none child p = refl
    property_lem (some v) (dict s) p = judged_ok v (dict s) p
    property_lem (some v) _ p = refl

    every_property_lem :
        (ps payload : Fields) (p : String)
        → is_ok (check_properties c ps payload p) ≡ every_property judge ps payload
    unfolding check_properties
    every_property_lem end payload p = refl
    every_property_lem (field k child rest) payload p =
        both _ _ _ _ (property_lem (get k payload) child _) (every_property_lem rest payload p)

    properties_lem :
        (o : Option Value) (payload : Fields) (p : String)
        → is_ok (properties_under c o payload p) ≡ given o (properties_meet judge payload)
    properties_lem none payload p = refl
    properties_lem (some (dict ps)) payload p = every_property_lem ps payload p
    properties_lem (some _) payload p = refl

    abbrev returned_count : Outcome ℕ → Option ℕ
    returned_count (ok n) = some n
    returned_count (raise e) = none

    tally_lem :
        (r : Outcome (Unit {0})) (rest : Outcome ℕ)
        → returned_count (tried r >>= λ n. rest >>= λ m. ok (n + m))
          ≡ counted judge (verdict r) (returned_count rest)
    tally_lem (ok _) (ok m) = ap some (omega arith)
    tally_lem (ok _) (raise e) = refl
    tally_lem (raise (protocol_error _ _)) (ok m) = ap some (omega arith)
    tally_lem (raise (protocol_error _ _)) (raise e) = refl
    tally_lem (raise (builtin _ _)) (ok m) = refl
    tally_lem (raise (builtin _ _)) (raise e) = refl
    tally_lem (raise out_of_fuel) (ok m) = refl
    tally_lem (raise out_of_fuel) (raise e) = refl

    matches_lem :
        (os : Items) (v : Value) (name p : String)
        → returned_count (count_matches c os v name p) ≡ matches judge os v
    unfolding count_matches
    matches_lem nil v name p = refl
    matches_lem (item (dict s) os) v name p =
        tally_lem (c v (dict s) p) (count_matches c os v name p)
        ∙ ap₂ (counted judge) (judged v (dict s) p) (matches_lem os v name p)
    matches_lem (item _ os) v name p = refl

    module _ (name : String) (test : ℕ → ℕ → Bool)
        (tests : (n total : ℕ) → not (broken_count name n total) ≡ test n total) where
      counted_lem :
          (r : Outcome ℕ) (total : ℕ) (p : String)
          → is_ok (r >>= λ n. raise_if (broken_count name n total) (invalid p))
            ≡ holds_if_some (λ n. test n total) (returned_count r)
      counted_lem (ok n) total p = raised_if (broken_count name n total) _ ∙ tests n total
      counted_lem (raise e) total p = refl

      options_lem :
          (o : Option Value) (v : Value) (p : String)
          → is_ok (options_under c name o v p) ≡ options_meet judge test v o
      options_lem none v p = refl
      options_lem (some null) v p = refl
      options_lem (some (list (item o os))) v p =
          counted_lem (count_matches c (item o os) v name p) (count_items (item o os)) p
          ∙ ap (holds_if_some (λ n. test n (count_items (item o os))))
              (matches_lem (item o os) v name p)
      options_lem (some _) v p = refl

      combinator_lem :
          (v : Value) (fs : Fields) (p : String)
          → is_ok (check_combinator c name v fs p) ≡ options_meet judge test v (get name fs)
      unfolding check_combinator
      combinator_lem v fs p = options_lem (get name fs) v p

    array_lem :
        (v : Value) (fs : Fields) (p : String)
        → is_ok (check_array c v fs p) ≡ array_meets judge v fs
    unfolding check_array
    array_lem (list vs) fs p =
        all_three _ _ _ _ _ _ (limit_lem "minItems" (λ n. ltb_ℤ (pos (count_items vs)) n) fs p)
          (limit_lem "maxItems" (λ n. ltb_ℤ n (pos (count_items vs))) fs p)
          (items_lem vs (get "items" fs) p)
    array_lem _ fs p = refl

    object_lem :
        (v : Value) (fs : Fields) (p : String)
        → is_ok (check_object c v fs p) ≡ object_meets judge v fs
    unfolding check_object check_required check_additional
    object_lem (dict payload) fs p = both _ _ _ _ (required_lem (get "required" fs) payload p) (
        both _ _ _ _ (properties_lem (get "properties" fs) payload p) (
          barred_lem payload (or_null (get "properties" fs))
            (or_null (get "additionalProperties" fs)) p))
    object_lem _ fs p = refl

    one_lem : (n total : ℕ) → not (broken_count "oneOf" n total) ≡ eqb n 1
    one_lem n total = ground arith

    any_lem : (n total : ℕ) → not (broken_count "anyOf" n total) ≡ ltb 0 n
    any_lem n total = ground arith

    all_lem : (n total : ℕ) → not (broken_count "allOf" n total) ≡ eqb n total
    all_lem n total = ground arith

    node_lem : (v s : Value) (p : String) → is_ok (check_node c v s p) ≡ meets_schema judge v s
    unfolding check_node meets check_const check_enum check_type
    node_lem v (dict fs) p = both _ _ _ _ (keywords_lem fs p) (
        both _ _ _ _ (const_lem v (get "const" fs) p) (
          both _ _ _ _ (enum_lem v (get "enum" fs) p) (
            both _ _ _ _ (type_lem v (get "type" fs) p) (
              both _ _ _ _ (string_lem v fs p) (
                both _ _ _ _ (number_lem v fs p) (
                  both _ _ _ _ (array_lem v fs p) (
                    both _ _ _ _ (object_lem v fs p) (
                      both _ _ _ _ (combinator_lem "oneOf" _ one_lem v fs p) (
                        both _ _ _ _ (combinator_lem "anyOf" _ any_lem v fs p)
                          (combinator_lem "allOf" _ all_lem v fs p))))))))))
    node_lem v _ p = refl

  -- `check_payload` accepts a payload, at whatever path it is called, exactly if the payload meets
  -- the schema: all keywords are supported and each condition of the schema holds, where what stands
  -- inside is judged by `check_payload` itself, at the path "".
  pub check_payload-meets :
      (payload schema : Value) (path : String)
      → is_ok (check_payload payload schema path)
        ≡ meets_schema (λ v s. verdict (check_payload v s "")) payload schema
  check_payload-meets payload schema path =
      ap is_ok (check_payload-eq payload schema path)
      ∙ node_lem check_payload (λ v s. verdict (check_payload v s ""))
          (λ v s p. check_payload-PathFree v s p "") payload schema path
