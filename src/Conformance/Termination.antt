-- ===== src/Conformance/Termination.antt =====
-- What `check_payload` gives does not depend on the fuel, once there is enough of it.
use fala.Prelude.{
  ℕ, zero, suc, ◌≤◌, ◌<◌, String, ◌≡◌, refl, ◌∙◌, Option, none, some, List, [], ◌∷◌, arith, ◌==◌,
  Bool-cases, inl, inr,
}
use fala.Python.Value.{Value, Items, Fields, list, dict, nil, item, end, field, elements, get}
use fala.Python.Text.{decimal}
use fala.Python.Json.{Platform}
use fala.Conformance.Keywords.{Checker, below, json_pointer_token}
use fala.Conformance.Payload.{
  property_under, items_under, properties_under, options_under, check_each, check_properties,
  count_matches, check_combinator, check_array, check_object, check_node, size, check,
  check_payload,
}

-- The two checkers agree on every schema below a size.
abbrev pub AgreeBelow : ℕ → Checker → Checker → Type 0
AgreeBelow n p q =
    (payload schema : Value) (path : String)
    → size schema < n
    → p payload schema path ≡ q payload schema path

pub size_pos : (s : Value) → 0 < size s
unfolding size
size_pos (list vs) = omega arith
size_pos (dict fs) = omega arith
size_pos _ = omega arith

pub size-get : (k : String) (fs : Fields) (v : Value) → get k fs ≡ some v → size v < size (dict fs)
unfolding size
size-get k end v h = absurd (cc)
size-get k (field j w fs) v h = elim (Bool-cases (k == j)) [
  | inl p ↦ let e : w ≡ v = cc (rw p at h) in rw (← e) (omega arith)
  | inr p ↦ omega (arith, size-get k fs v (rw p at h))
]

module _ (p q : Checker) where
  check_each-cong :
      (schema : Value)
      → ((v : Value) (path : String) → p v schema path ≡ q v schema path)
      → (vs : List Value) (path : String) (i : ℕ)
      → check_each p vs schema path i ≡ check_each q vs schema path i
  unfolding check_each
  check_each-cong schema h [] path i = refl
  check_each-cong schema h (v ∷ vs) path i =
      rw (h v (below path (decimal i)), check_each-cong schema h vs path (suc i))

  property_under-cong :
      (o : Option Value) (child : Value) (path : String)
      → AgreeBelow (suc (size child)) p q
      → property_under p o child path ≡ property_under q o child path
  property_under-cong none child path h = refl
  property_under-cong (some v) (dict s) path h = h v (dict s) path (omega arith)
  property_under-cong (some v) _ path h = refl

  check_properties-cong :
      (ps payload : Fields) (path : String)
      → AgreeBelow (size (dict ps)) p q
      → check_properties p ps payload path ≡ check_properties q ps payload path
  unfolding check_properties size
  check_properties-cong end payload path h = refl
  check_properties-cong (field k child rest) payload path h =
      let here =
        property_under-cong (get k payload) child (below path (json_pointer_token k))
          (λ v t r l. h v t r (omega arith)) in
      let there = check_properties-cong rest payload path (λ v t r l. h v t r (omega arith)) in
      cc (here, there)

  count_matches-cong :
      (os : Items) (payload : Value) (combinator path : String)
      → AgreeBelow (size (list os)) p q
      → count_matches p os payload combinator path ≡ count_matches q os payload combinator path
  unfolding count_matches size
  count_matches-cong nil payload combinator path h = refl
  count_matches-cong (item (dict s) os) payload combinator path h =
      rw (h payload (dict s) path (omega arith))
        (rw (count_matches-cong os payload combinator path (λ v t r l. h v t r (omega arith))))
  count_matches-cong (item _ os) payload combinator path h = refl

  module _ (fs : Fields) (h : AgreeBelow (size (dict fs)) p q) where
    items_under-cong :
        (vs : Items) (o : Option Value) (path : String)
        → get "items" fs ≡ o
        → items_under p vs o path ≡ items_under q vs o path
    items_under-cong vs none path e = refl
    items_under-cong vs (some (dict s)) path e =
        check_each-cong (dict s) (λ v r. h v (dict s) r (size-get "items" fs (dict s) e))
          (elements vs) path 0
    items_under-cong vs (some _) path e = refl

    properties_under-cong :
        (o : Option Value) (payload : Fields) (path : String)
        → get "properties" fs ≡ o
        → properties_under p o payload path ≡ properties_under q o payload path
    properties_under-cong none payload path e = refl
    properties_under-cong (some (dict ps)) payload path e =
        check_properties-cong ps payload path
          (λ v t r l. h v t r (omega (arith, size-get "properties" fs (dict ps) e)))
    properties_under-cong (some _) payload path e = refl

    options_under-cong :
        (k : String) (o : Option Value) (payload : Value) (path : String)
        → get k fs ≡ o
        → options_under p k o payload path ≡ options_under q k o payload path
    options_under-cong k none payload path e = refl
    options_under-cong k (some (list (item o os))) payload path e = rw (
        count_matches-cong (item o os) payload k path
          (λ v t r l. h v t r (omega (arith, size-get k fs (list (item o os)) e))))
    options_under-cong k (some _) payload path e = refl

module _ ⦃platform : Platform⦄ where
  check_array-cong :
      (p q : Checker) (v : Value) (fs : Fields) (path : String)
      → AgreeBelow (size (dict fs)) p q
      → check_array p v fs path ≡ check_array q v fs path
  unfolding check_array
  check_array-cong p q (list vs) fs path h =
      cc (items_under-cong p q fs h vs (get "items" fs) path refl)
  check_array-cong p q _ fs path h = refl

  check_object-cong :
      (p q : Checker) (v : Value) (fs : Fields) (path : String)
      → AgreeBelow (size (dict fs)) p q
      → check_object p v fs path ≡ check_object q v fs path
  unfolding check_object
  check_object-cong p q (dict payload) fs path h =
      cc (properties_under-cong p q fs h (get "properties" fs) payload path refl)
  check_object-cong p q _ fs path h = refl

  check_combinator-cong :
      (p q : Checker) (k : String) (v : Value) (fs : Fields) (path : String)
      → AgreeBelow (size (dict fs)) p q
      → check_combinator p k v fs path ≡ check_combinator q k v fs path
  unfolding check_combinator
  check_combinator-cong p q k v fs path h = options_under-cong p q fs h k (get k fs) v path refl

  pub check_node-cong :
      (p q : Checker) (v s : Value) (path : String)
      → AgreeBelow (size s) p q
      → check_node p v s path ≡ check_node q v s path
  unfolding check_node
  check_node-cong p q v (dict fs) path h = rw (
    check_array-cong p q v fs path h,
    check_object-cong p q v fs path h,
    check_combinator-cong p q "oneOf" v fs path h,
    check_combinator-cong p q "anyOf" v fs path h,
    check_combinator-cong p q "allOf" v fs path h,
  )
  check_node-cong p q v _ path h = refl

  -- Any two amounts of fuel that are enough give the same run.
  check-fuel :
      (m n : ℕ) (v s : Value) (path : String)
      → size s ≤ m
      → size s ≤ n
      → check m v s path ≡ check n v s path
  unfolding check
  check-fuel zero n v s path h k = absurd (omega (arith, size_pos s))
  check-fuel (suc m) zero v s path h k = absurd (omega (arith, size_pos s))
  check-fuel (suc m) (suc n) v s path h k =
      check_node-cong (check m) (check n) v s path
        (λ w t r l. check-fuel m n w t r (omega arith) (omega arith))

  pub check-enough :
      (n : ℕ) (v s : Value) (path : String) → size s ≤ n → check n v s path ≡ check_payload v s path
  unfolding check_payload
  check-enough n v s path h = check-fuel n (size s) v s path h (omega arith)

  -- The checker with its fuel satisfies the recursion of the source: it is its own body, with itself
  -- for the calls.
  pub check_payload-eq :
      (v s : Value) (path : String) → check_payload v s path ≡ check_node check_payload v s path
  unfolding check_payload
  check_payload-eq v s path =
      check-fuel (size s) (suc (size s)) v s path (omega arith) (omega arith)
      ∙ check_node-cong (check (size s)) check_payload v s path
          (λ w t r l. check-fuel (size s) (size t) w t r (omega arith) (omega arith))
