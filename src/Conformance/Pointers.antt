-- ===== src/Conformance/Pointers.antt =====
-- What `check_payload` may raise: the keyword checks and the calls of itself together.
use fala.Prelude.{
  ℕ, zero, suc, ◌≤◌, ◌<◌, String, ◌≡◌, refl, Bool, Option, none, some, List, [], ◌∷◌, arith,
}
use fala.Python.Outcome.{Outcome, ok, raise, raise_if, protocol_error, builtin, out_of_fuel, ◌>>=◌}
use fala.Python.Value.{
  Value, Items, Fields, null, list, dict, nil, item, end, field, elements, get, keys, count_items,
}
use fala.Python.Text.{decimal, least}
use fala.Python.Json.{Platform}
use fala.Conformance.Keywords.{
  Checker, invalid, below, json_pointer_token, unsupported, or_null, check_keywords, check_const,
  check_enum, check_type,
}
use fala.Conformance.Payload.{
  tried, property_under, items_under, properties_under, options_under, broken_count, check_each,
  check_properties, count_matches, check_combinator, check_array, check_object, check_node, size,
  check, check_payload,
}
use fala.Conformance.Termination.{size_pos, size-get}
use fala.Conformance.Reports.{
  Reports, Reports-invalid, Reports-below, Reports-raise_if, Reports-seq, Reports-invalid-below,
  limit_under-Reports, check_string-Reports, refuse_keyword-Reports, const_under-Reports,
  enum_under-Reports, type_under-Reports, check_number-Reports, required_under-Reports,
  others_barred-Reports,
}

abbrev ReportsBelow : ℕ → Checker → Type 0
ReportsBelow n rec = (v s : Value) (path : String) → size s < n → Reports path (rec v s path)

-- Whether a count came out, and if not, how it ended.
abbrev CountReports : String → Outcome ℕ → Type 0
CountReports path (ok n) = Unit
CountReports path (raise e) = Reports path (raise e)

CountReports-tried :
    (path : String) (r : Outcome (Unit {0})) → Reports path r → CountReports path (tried r)
CountReports-tried path (ok _) h = tt
CountReports-tried path (raise (protocol_error _ _)) h = tt
CountReports-tried path (raise (builtin _ _)) h = tt
CountReports-tried path (raise out_of_fuel) h = h

CountReports-bind :
    (path : String) (r : Outcome ℕ) (f : ℕ → Outcome ℕ)
    → CountReports path r
    → ((n : ℕ) → CountReports path (f n))
    → CountReports path (r >>= f)
CountReports-bind path (ok n) f h k = k n
CountReports-bind path (raise e) f h k = h

Reports-count :
    (path : String) (r : Outcome ℕ) (broken : ℕ → Bool)
    → CountReports path r
    → Reports path (r >>= λ n. raise_if (broken n) (invalid path))
Reports-count path (ok n) broken h = Reports-raise_if path (broken n)
Reports-count path (raise e) broken h = h

module _ (rec : Checker) where
  check_each-Reports :
      (s : Value)
      → ((v : Value) (path : String) → Reports path (rec v s path))
      → (vs : List Value) (path : String) (i : ℕ) → Reports path (check_each rec vs s path i)
  unfolding check_each
  check_each-Reports s h [] path i = tt
  check_each-Reports s h (v ∷ vs) path i =
      Reports-seq path _ _ (Reports-below path (decimal i) _ (h v (below path (decimal i))))
        (check_each-Reports s h vs path (suc i))

  property_under-Reports :
      (o : Option Value) (child : Value) (path : String)
      → ReportsBelow (suc (size child)) rec
      → Reports path (property_under rec o child path)
  property_under-Reports none child path h = tt
  property_under-Reports (some v) (dict s) path h = h v (dict s) path (omega arith)
  property_under-Reports (some v) _ path h = tt

  check_properties-Reports :
      (ps payload : Fields) (path : String)
      → ReportsBelow (size (dict ps)) rec
      → Reports path (check_properties rec ps payload path)
  unfolding check_properties size
  check_properties-Reports end payload path h = tt
  check_properties-Reports (field k child rest) payload path h =
      Reports-seq path _ _
        (Reports-below path (json_pointer_token k) _ (
          property_under-Reports (get k payload) child (below path (json_pointer_token k))
            (λ v s r l. h v s r (omega arith))))
        (check_properties-Reports rest payload path (λ v s r l. h v s r (omega arith)))

  count_matches-Reports :
      (os : Items) (v : Value) (combinator path : String)
      → ReportsBelow (size (list os)) rec
      → CountReports path (count_matches rec os v combinator path)
  unfolding count_matches size
  count_matches-Reports nil v combinator path h = tt
  count_matches-Reports (item (dict s) os) v combinator path h =
      CountReports-bind path _ _ (CountReports-tried path _ (h v (dict s) path (omega arith))) (λ n.
        CountReports-bind path _ _
          (count_matches-Reports os v combinator path (λ w s r l. h w s r (omega arith))) (λ m. tt))
  count_matches-Reports (item _ os) v combinator path h = Reports-invalid-below path combinator

  module _ (fs : Fields) (h : ReportsBelow (size (dict fs)) rec) (path : String) where
    items_under-Reports :
        (vs : Items) (o : Option Value)
        → get "items" fs ≡ o
        → Reports path (items_under rec vs o path)
    items_under-Reports vs none e = tt
    items_under-Reports vs (some (dict s)) e =
        check_each-Reports (dict s) (λ v r. h v (dict s) r (size-get "items" fs (dict s) e))
          (elements vs) path 0
    items_under-Reports vs (some _) e = tt

    properties_under-Reports :
        (o : Option Value) (payload : Fields)
        → get "properties" fs ≡ o
        → Reports path (properties_under rec o payload path)
    properties_under-Reports none payload e = tt
    properties_under-Reports (some (dict ps)) payload e =
        check_properties-Reports ps payload path
          (λ v t r l. h v t r (omega (arith, size-get "properties" fs (dict ps) e)))
    properties_under-Reports (some _) payload e = tt

    options_under-Reports :
        (k : String) (o : Option Value) (v : Value)
        → get k fs ≡ o
        → Reports path (options_under rec k o v path)
    options_under-Reports k none v e = tt
    options_under-Reports k (some null) v e = tt
    options_under-Reports k (some (list (item o os))) v e =
        Reports-count path (count_matches rec (item o os) v k path)
          (λ n. broken_count k n (count_items (item o os)))
          (count_matches-Reports (item o os) v k path
            (λ w t r l. h w t r (omega (arith, size-get k fs (list (item o os)) e))))
    options_under-Reports k (some _) v e = Reports-invalid-below path k

module _ ⦃platform : Platform⦄ where
  -- One run of the body, over calls that report properly.
  check_node-Reports :
      (rec : Checker) (v s : Value) (path : String)
      → ReportsBelow (size s) rec
      → Reports path (check_node rec v s path)
  unfolding check_node check_keywords check_const check_enum check_type check_array check_object
      check_combinator
  check_node-Reports rec v (dict fs) path h =
      Reports-seq path _ _ (refuse_keyword-Reports path (least (unsupported (keys fs)))) (
        Reports-seq path _ _ (const_under-Reports path v (get "const" fs)) (
          Reports-seq path _ _ (enum_under-Reports path v (get "enum" fs)) (
            Reports-seq path _ _ (type_under-Reports path v (get "type" fs)) (
              Reports-seq path _ _ (check_string-Reports path v fs) (
                Reports-seq path _ _ (check_number-Reports path v fs) (
                  Reports-seq path _ _ (array_Reports v) (
                    Reports-seq path _ _ (object_Reports v) (
                      Reports-seq path _ _ (options "oneOf")
                        (Reports-seq path _ _ (options "anyOf") (options "allOf"))))))))))
    where
      options : (k : String) → Reports path (options_under rec k (get k fs) v path)
      options k = options_under-Reports rec fs h path k (get k fs) v refl

      array_Reports : (w : Value) → Reports path (check_array rec w fs path)
      array_Reports (list vs) =
          Reports-seq path _ _ (limit_under-Reports path _ (get "minItems" fs)) (
            Reports-seq path _ _ (limit_under-Reports path _ (get "maxItems" fs))
              (items_under-Reports rec fs h path vs (get "items" fs) refl))
      array_Reports _ = tt

      object_Reports : (w : Value) → Reports path (check_object rec w fs path)
      object_Reports (dict payload) =
          Reports-seq path _ _ (required_under-Reports path (get "required" fs) payload) (
            Reports-seq path _ _
              (properties_under-Reports rec fs h path (get "properties" fs) payload refl)
              (others_barred-Reports path payload (or_null (get "properties" fs))
                (or_null (get "additionalProperties" fs))))
      object_Reports _ = tt
  check_node-Reports rec v _ path h = Reports-invalid path

  check-Reports :
      (depth : ℕ) (v s : Value) (path : String)
      → size s ≤ depth
      → Reports path (check depth v s path)
  unfolding check
  check-Reports zero v s path h = absurd (omega (arith, size_pos s))
  check-Reports (suc depth) v s path h =
      check_node-Reports (check depth) v s path (λ w t r l. check-Reports depth w t r (omega arith))

  -- Whatever the payload and the schema, `check_payload` returns, raises `fep.payload_invalid` with a
  -- pointer that starts with the path it was given, or lets an exception of `int` or of a
  -- comparison through; it never runs out of fuel.
  pub check_payload-Reports : (v s : Value) (path : String) → Reports path (check_payload v s path)
  unfolding check_payload
  check_payload-Reports v s path = check-Reports (size s) v s path (omega arith)
