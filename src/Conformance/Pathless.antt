-- ===== src/Conformance/Pathless.antt =====
-- python/fala/conformance.py: the verdict of `check_payload` is the same at every path.
use fala.Python.Text.{decimal}
use fala.Python.Outcome.{out_of_fuel, builtin, protocol_error, raise, ok, ◌>>◌, Outcome, raise_if}
use fala.Conformance.Verdicts.{
  crashed, refused, number_alike, string_alike, type_alike, accepted, enum_alike, const_alike,
  Verdict, limit_alike, keywords_alike, PathFree, refused_alike, alike, verdict,
}
use fala.Python.Value.{
  end, null, count_items, field, elements, nil, get, has, keys, bool, list, dict, str, item, Value,
  Fields, Items,
}
use fala.Conformance.Payload.{
  tried, broken_count, check_object, property_under, properties_under, count_matches, check_array,
  items_under, check_properties, size, options_under, check_combinator, check_each, check_node,
  check_payload, check,
}
use fala.Conformance.Keywords.{
  check_limit, json_pointer_token, below, invalid, or_null, others_barred, required_under,
  check_required, check_required_keys, check_no_others, check_additional, Checker,
}
use fala.Python.Json.{Platform}
use fala.Prelude.{
  zero, sym, ap, suc, false, [], refl, not, some, Option, ◌∷◌, ◌≡◌, String, ℕ, List, none, ◌∙◌,
}

module _ ⦃platform : Platform⦄ where
  required_keys_alike :
      (ks : Items) (payload : Fields) (p q : String)
      → verdict (check_required_keys ks payload p) ≡ verdict (check_required_keys ks payload q)
  unfolding check_required_keys
  required_keys_alike nil payload p q = refl
  required_keys_alike (item (str key) ks) payload p q =
      alike (raise_if (not (has key payload)) (invalid (below p (json_pointer_token key))))
        (raise_if (not (has key payload)) (invalid (below q (json_pointer_token key)))) _ _
        (refused_alike (not (has key payload)) _ _) (λ u. required_keys_alike ks payload p q)
  required_keys_alike (item _ ks) payload p q = refl

  required_alike :
      (payload fs : Fields) (p q : String)
      → verdict (check_required payload fs p) ≡ verdict (check_required payload fs q)
  unfolding check_required
  required_alike payload fs p q = under_alike (get "required" fs)
    where
      under_alike :
          (o : Option Value)
          → verdict (required_under o payload p) ≡ verdict (required_under o payload q)
      under_alike (some (list ks)) = required_keys_alike ks payload p q
      under_alike _ = refl

  no_others_alike :
      (ks : List String) (properties : Fields) (p q : String)
      → verdict (check_no_others ks properties p) ≡ verdict (check_no_others ks properties q)
  unfolding check_no_others
  no_others_alike [] properties p q = refl
  no_others_alike (k ∷ ks) properties p q =
      alike (raise_if (not (has k properties)) (invalid (below p (json_pointer_token k))))
        (raise_if (not (has k properties)) (invalid (below q (json_pointer_token k)))) _ _
        (refused_alike (not (has k properties)) _ _) (λ u. no_others_alike ks properties p q)

  additional_alike :
      (payload fs : Fields) (p q : String)
      → verdict (check_additional payload fs p) ≡ verdict (check_additional payload fs q)
  unfolding check_additional
  additional_alike payload fs p q =
      barred_alike (or_null (get "properties" fs)) (or_null (get "additionalProperties" fs))
    where
      barred_alike :
          (v w : Value)
          → verdict (others_barred payload v w p) ≡ verdict (others_barred payload v w q)
      barred_alike (dict properties) (bool false) = no_others_alike (keys payload) properties p q
      barred_alike _ _ = refl

  module _ (c : Checker) (free : PathFree c) where
    each_alike :
        (vs : List Value) (s : Value) (p q : String) (i : ℕ)
        → verdict (check_each c vs s p i) ≡ verdict (check_each c vs s q i)
    unfolding check_each
    each_alike [] s p q i = refl
    each_alike (v ∷ vs) s p q i =
        alike (c v s (below p (decimal i))) (c v s (below q (decimal i))) _ _
          (free v s (below p (decimal i)) (below q (decimal i))) (λ u. each_alike vs s p q (suc i))

    items_alike :
        (vs : Items) (o : Option Value) (p q : String)
        → verdict (items_under c vs o p) ≡ verdict (items_under c vs o q)
    items_alike vs (some (dict s)) p q = each_alike (elements vs) (dict s) p q 0
    items_alike vs _ p q = refl

    property_alike :
        (o : Option Value) (child : Value) (p q : String)
        → verdict (property_under c o child p) ≡ verdict (property_under c o child q)
    property_alike (some v) (dict s) p q = free v (dict s) p q
    property_alike _ _ p q = refl

    each_property_alike :
        (ps payload : Fields) (p q : String)
        → verdict (check_properties c ps payload p) ≡ verdict (check_properties c ps payload q)
    unfolding check_properties
    each_property_alike end payload p q = refl
    each_property_alike (field k child rest) payload p q =
        alike (property_under c (get k payload) child (below p (json_pointer_token k)))
          (property_under c (get k payload) child (below q (json_pointer_token k))) _ _
          (property_alike (get k payload) child _ _) (λ u. each_property_alike rest payload p q)

    properties_alike :
        (o : Option Value) (payload : Fields) (p q : String)
        → verdict (properties_under c o payload p) ≡ verdict (properties_under c o payload q)
    properties_alike (some (dict ps)) payload p q = each_property_alike ps payload p q
    properties_alike _ payload p q = refl

    tried_alike :
        (m n : Outcome (Unit {0})) → verdict m ≡ verdict n → verdict (tried m) ≡ verdict (tried n)
    tried_alike m n h = tried-verdict m ∙ ap tried_verdict h ∙ sym (tried-verdict n)
      where
        tried_verdict : Verdict (Unit {0}) → Verdict ℕ
        tried_verdict (accepted _) = accepted 1
        tried_verdict refused = accepted 0
        tried_verdict crashed = crashed

        tried-verdict : (r : Outcome (Unit {0})) → verdict (tried r) ≡ tried_verdict (verdict r)
        tried-verdict (ok _) = refl
        tried-verdict (raise (protocol_error _ _)) = refl
        tried-verdict (raise (builtin _ _)) = refl
        tried-verdict (raise out_of_fuel) = refl

    matches_alike :
        (os : Items) (v : Value) (name : String) (p q : String)
        → verdict (count_matches c os v name p) ≡ verdict (count_matches c os v name q)
    unfolding count_matches
    matches_alike nil v name p q = refl
    matches_alike (item (dict s) os) v name p q =
        alike (tried (c v (dict s) p)) (tried (c v (dict s) q)) _ _
          (tried_alike (c v (dict s) p) (c v (dict s) q) (free v (dict s) p q))
          λ n.
            alike (count_matches c os v name p) (count_matches c os v name q) _ _
              (matches_alike os v name p q) (λ m. refl)
    matches_alike (item _ os) v name p q = refl

    options_alike :
        (name : String) (o : Option Value) (v : Value) (p q : String)
        → verdict (options_under c name o v p) ≡ verdict (options_under c name o v q)
    options_alike name none v p q = refl
    options_alike name (some null) v p q = refl
    options_alike name (some (list (item o os))) v p q =
        alike (count_matches c (item o os) v name p) (count_matches c (item o os) v name q) _ _
          (matches_alike (item o os) v name p q)
          (λ n. refused_alike (broken_count name n (count_items (item o os))) p q)
    options_alike name (some _) v p q = refl

    combinator_alike :
        (name : String) (v : Value) (fs : Fields) (p q : String)
        → verdict (check_combinator c name v fs p) ≡ verdict (check_combinator c name v fs q)
    unfolding check_combinator
    combinator_alike name v fs p q = options_alike name (get name fs) v p q

    array_alike :
        (v : Value) (fs : Fields) (p q : String)
        → verdict (check_array c v fs p) ≡ verdict (check_array c v fs q)
    unfolding check_array
    array_alike (list vs) fs p q =
        alike (check_limit "minItems" _ fs p) (check_limit "minItems" _ fs q) _ _
          (limit_alike "minItems" _ fs p q)
          λ u.
            alike (check_limit "maxItems" _ fs p) (check_limit "maxItems" _ fs q) _ _
              (limit_alike "maxItems" _ fs p q) (λ w. items_alike vs (get "items" fs) p q)
    array_alike _ fs p q = refl

    object_alike :
        (v : Value) (fs : Fields) (p q : String)
        → verdict (check_object c v fs p) ≡ verdict (check_object c v fs q)
    unfolding check_object
    object_alike (dict payload) fs p q =
        alike (check_required payload fs p) (check_required payload fs q) _ _
          (required_alike payload fs p q)
          λ u.
            alike (properties_under c (get "properties" fs) payload p)
              (properties_under c (get "properties" fs) payload q) _ _
              (properties_alike (get "properties" fs) payload p q)
              (λ w. additional_alike payload fs p q)
    object_alike _ fs p q = refl

    step :
        (m n : Outcome (Unit {0})) (f g : Outcome (Unit {0}))
        → verdict m ≡ verdict n
        → verdict f ≡ verdict g
        → verdict (m >> f) ≡ verdict (n >> g)
    step m n f g h k = alike m n (λ u. f) (λ u. g) h (λ u. k)

    node_alike : PathFree (check_node c)
    unfolding check_node
    node_alike v (dict fs) p q = step _ _ _ _ (keywords_alike fs p q) (
        step _ _ _ _ (const_alike v fs p q) (
          step _ _ _ _ (enum_alike v fs p q) (
            step _ _ _ _ (type_alike v fs p q) (
              step _ _ _ _ (string_alike v fs p q) (
                step _ _ _ _ (number_alike v fs p q) (
                  step _ _ _ _ (array_alike v fs p q) (
                    step _ _ _ _ (object_alike v fs p q) (
                      step _ _ _ _ (combinator_alike "oneOf" v fs p q) (
                        step _ _ _ _ (combinator_alike "anyOf" v fs p q)
                          (combinator_alike "allOf" v fs p q))))))))))
    node_alike v _ p q = refl

  check-PathFree : (depth : ℕ) → PathFree (check depth)
  unfolding check
  check-PathFree zero v s p q = refl
  check-PathFree (suc depth) v s p q = node_alike (check depth) (check-PathFree depth) v s p q

  pub check_payload-PathFree : PathFree check_payload
  unfolding check_payload
  check_payload-PathFree v s p q = check-PathFree (size s) v s p q
