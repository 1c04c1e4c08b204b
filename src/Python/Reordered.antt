-- ===== src/Python/Reordered.antt =====
-- JSON values that differ in the order of the keys of their dicts are spelled alike: `json.dumps` with
-- `sort_keys=True` sorts them.
use mathlib.Core.Path.{ap₂}
use fala.Prelude.{
  String, ◌<>◌, true, false, ◌≡◌, ◌≢◌, refl, ap, sym, ◌∙◌, inl, inr, List, [], ◌∷◌, map, Bool-cases,
}
use fala.Python.Outcome.{Outcome, ok, raise, Error, builtin, value_error, ◌>>=◌}
use fala.Python.Number.{finite, infinity, minus_infinity, nan}
use fala.Python.Text.{str_lt}
use fala.Python.Order.{str_lt_trans, str_lt-cases}
use fala.Python.Value.{
  Value, Items, Fields, null, bool, int, float, str, list, dict, nil, item, end, field,
}
use fala.Python.Json.{
  Platform, Style, dumps, dumps_items, dumps_fields, insert_entry, sort_entries, spell_dict,
  spell_entry, join,
}

mutual
  -- The same value, up to the order of the keys of the dicts in it.
  pub data Reordered : Value → Value → Type 0 where
    same : {v : Value} → Reordered v v
    in_list : {vs ws : Items} → ReorderedItems vs ws → Reordered (list vs) (list ws)
    in_dict : {fs gs : Fields} → ReorderedFields fs gs → Reordered (dict fs) (dict gs)

  pub data ReorderedItems : Items → Items → Type 0 where
    no_items : ReorderedItems nil nil
    items :
        {v w : Value} {vs ws : Items}
        → Reordered v w
        → ReorderedItems vs ws
        → ReorderedItems (item v vs) (item w ws)

  pub data ReorderedFields : Fields → Fields → Type 0 where
    no_fields : ReorderedFields end end
    fields :
        {k : String} {v w : Value} {fs gs : Fields}
        → Reordered v w
        → ReorderedFields fs gs
        → ReorderedFields (field k v fs) (field k w gs)
    swapped :
        {j k : String} {v w : Value} {fs : Fields}
        → j ≢ k
        → ReorderedFields (field j v (field k w fs)) (field k w (field j v fs))
    then_so :
        {fs gs hs : Fields} → ReorderedFields fs gs → ReorderedFields gs hs → ReorderedFields fs hs

pub fields_same : (fs : Fields) → ReorderedFields fs fs
fields_same end = no_fields
fields_same (field k v fs) = fields same (fields_same fs)

-- Where `d` does not precede `a`, what follows `d` follows `a`.
str_lt-between : (a d b : String) → str_lt d a ≡ false → str_lt d b ≡ true → str_lt a b ≡ true
str_lt-between a d b h g = elim (str_lt-cases a d) [
  | inl (l, _) ↦ str_lt_trans a d b l g
  | inr (inl (_, l)) ↦ absurd (cc (h, l))
  | inr (inr e) ↦ ap (λ x. str_lt x b) e ∙ g
]

pub insert-insert :
    (a b : String × String) (es : List (String × String))
    → a.0 ≢ b.0
    → insert_entry a (insert_entry b es) ≡ insert_entry b (insert_entry a es)
insert-insert a b [] h = elim (str_lt-cases a.0 b.0) [
  | inl (l, m) ↦ rw (l, m) refl
  | inr (inl (l, m)) ↦ rw (l, m) refl
  | inr (inr e) ↦ absurd (h e)
]
insert-insert a b (d ∷ ds) h = elim (Bool-cases (str_lt d.0 a.0)) [
  | inl l ↦ elim (Bool-cases (str_lt d.0 b.0)) [
    | inl m ↦ rw (l, m) (rw l (ap (λ es. d ∷ es) (insert-insert a b ds h)))
    | inr m ↦ simp (l, m, str_lt-between b.0 d.0 a.0 m l)
  ]
  | inr l ↦ elim (Bool-cases (str_lt d.0 b.0)) [
    | inl m ↦ simp (l, m, str_lt-between a.0 d.0 b.0 l m)
    | inr m ↦ elim (str_lt-cases a.0 b.0) [
      | inl (n, o) ↦ simp (l, m, n, o)
      | inr (inl (n, o)) ↦ simp (l, m, n, o)
      | inr (inr e) ↦ absurd (h e)
    ]
  ]
]

-- A value that cannot be spelled has a float in it that is not finite.
abbrev no_number : Error
no_number = builtin value_error ""

OnlyNoNumber {ℓ} : {A : Type ℓ} → Outcome A → Type 0
OnlyNoNumber (ok _) = Unit
OnlyNoNumber (raise e) = e ≡ no_number

OnlyNoNumber-chain {ℓ κ} :
    {A : Type ℓ} {B : Type κ} (m : Outcome A) (f : A → Outcome B)
    → OnlyNoNumber m
    → ((a : A) → OnlyNoNumber (f a))
    → OnlyNoNumber (m >>= f)
unfolding OnlyNoNumber
OnlyNoNumber-chain (ok a) f h k = k a
OnlyNoNumber-chain (raise e) f h k = h

-- the fields of a dict in the order in which they are spelled
sorted : Outcome (List (String × String)) → Outcome (List (String × String))
sorted m = do parts ← m; ok (sort_entries parts)

sorted-step :
    (k : String) (m : Outcome String) (o p : Outcome (List (String × String)))
    → sorted o ≡ sorted p
    → sorted (do x ← m; qs ← o; ok ((k, x) ∷ qs)) ≡ sorted (do x ← m; qs ← p; ok ((k, x) ∷ qs))
unfolding sorted
sorted-step k (raise e) o p h = refl
sorted-step k (ok x) o p h = step o ∙ ap (λ m. inserted m) h ∙ sym (step p)
  where
    inserted : Outcome (List (String × String)) → Outcome (List (String × String))
    inserted m = do es ← m; ok (insert_entry (k, x) es)

    step :
        (o : Outcome (List (String × String)))
        → sorted (do qs ← o; ok ((k, x) ∷ qs)) ≡ inserted (sorted o)
    step (ok qs) = refl
    step (raise e) = refl

module _ ⦃platform : Platform⦄ (style : Style) where
  mutual
    unfolding OnlyNoNumber dumps

    dumps-OnlyNoNumber : (v : Value) → OnlyNoNumber (dumps style v)
    dumps-OnlyNoNumber null = tt
    dumps-OnlyNoNumber (bool b) = tt
    dumps-OnlyNoNumber (int n) = tt
    dumps-OnlyNoNumber (float (finite m k)) = tt
    dumps-OnlyNoNumber (float infinity) = refl
    dumps-OnlyNoNumber (float minus_infinity) = refl
    dumps-OnlyNoNumber (float nan) = refl
    dumps-OnlyNoNumber (str s) = tt
    dumps-OnlyNoNumber (list vs) =
        OnlyNoNumber-chain (dumps_items style vs) _ (dumps_items-OnlyNoNumber vs) (λ x. tt)
    dumps-OnlyNoNumber (dict fs) =
        OnlyNoNumber-chain (dumps_fields style fs) _ (dumps_fields-OnlyNoNumber fs) (λ x. tt)

    dumps_items-OnlyNoNumber : (vs : Items) → OnlyNoNumber (dumps_items style vs)
    dumps_items-OnlyNoNumber nil = tt
    dumps_items-OnlyNoNumber (item v vs) =
        OnlyNoNumber-chain (dumps style v) _ (dumps-OnlyNoNumber v)
          (λ x. OnlyNoNumber-chain (dumps_items style vs) _ (dumps_items-OnlyNoNumber vs) (λ y. tt))

    dumps_fields-OnlyNoNumber : (fs : Fields) → OnlyNoNumber (dumps_fields style fs)
    dumps_fields-OnlyNoNumber end = tt
    dumps_fields-OnlyNoNumber (field k v fs) =
        OnlyNoNumber-chain (dumps style v) _ (dumps-OnlyNoNumber v) (λ x.
          OnlyNoNumber-chain (dumps_fields style fs) _ (dumps_fields-OnlyNoNumber fs) (λ y. tt))

  swapped-sorted :
      (j k : String) (v w : Value) (fs : Fields)
      → j ≢ k
      → sorted (dumps_fields style (field j v (field k w fs)))
        ≡ sorted (dumps_fields style (field k w (field j v fs)))
  unfolding sorted OnlyNoNumber dumps
  swapped-sorted j k v w fs h =
      swap (dumps style v) (dumps style w) (dumps_fields style fs) (dumps-OnlyNoNumber v)
        (dumps-OnlyNoNumber w)
    where
      swap :
          (m n : Outcome String) (o : Outcome (List (String × String)))
          → OnlyNoNumber m
          → OnlyNoNumber n
          → sorted (do x ← m; ps ← (do y ← n; qs ← o; ok ((k, y) ∷ qs)); ok ((j, x) ∷ ps))
            ≡ sorted (do y ← n; ps ← (do x ← m; qs ← o; ok ((j, x) ∷ qs)); ok ((k, y) ∷ ps))
      swap (ok x) (ok y) (ok qs) p q = ap ok (insert-insert (j, x) (k, y) (sort_entries qs) h)
      swap (ok x) (ok y) (raise e) p q = refl
      swap (ok x) (raise e) o p q = refl
      swap (raise e) (ok y) o p q = refl
      swap (raise e) (raise f) o p q = ap raise (p ∙ sym q)

  spelled-sorted :
      (m n : Outcome (List (String × String)))
      → sorted m ≡ sorted n
      → (do ps ← m; ok (spell_dict style ps)) ≡ (do ps ← n; ok (spell_dict style ps))
  unfolding sorted
  spelled-sorted m n h = sym (braced-sorted m) ∙ ap braced h ∙ braced-sorted n
    where
      braced : Outcome (List (String × String)) → Outcome String
      braced m = do
        es ← m
        ok ("{" <> (join style.item_separator (map (spell_entry style) es) <> "}"))

      braced-sorted :
          (m : Outcome (List (String × String)))
          → braced (sorted m) ≡ (do ps ← m; ok (spell_dict style ps))
      braced-sorted (ok ps) = refl
      braced-sorted (raise e) = refl

  mutual
    unfolding dumps

    -- Values that differ in the order of keys only are spelled alike, or fail alike.
    pub dumps-Reordered : (v w : Value) → Reordered v w → dumps style v ≡ dumps style w
    dumps-Reordered v _ same = refl
    dumps-Reordered _ _ (in_list r) =
        ap (λ m. do parts ← m; ok ("[" <> (join style.item_separator parts <> "]")))
          (dumps_items-Reordered _ _ r)
    dumps-Reordered _ _ (in_dict r) = spelled-sorted _ _ (dumps_fields-Reordered _ _ r)

    dumps_items-Reordered :
        (vs ws : Items) → ReorderedItems vs ws → dumps_items style vs ≡ dumps_items style ws
    dumps_items-Reordered _ _ no_items = refl
    dumps_items-Reordered _ _ (items r rs) =
        ap₂ (λ m n. do x ← m; xs ← n; ok (x ∷ xs)) (dumps-Reordered _ _ r)
          (dumps_items-Reordered _ _ rs)

    dumps_fields-Reordered :
        (fs gs : Fields)
        → ReorderedFields fs gs
        → sorted (dumps_fields style fs) ≡ sorted (dumps_fields style gs)
    dumps_fields-Reordered _ _ no_fields = refl
    dumps_fields-Reordered _ _ (fields {k = k} {w = w} {fs = fs} {gs = gs} r rs) =
        ap (λ m. sorted (do x ← m; qs ← dumps_fields style fs; ok ((k, x) ∷ qs)))
          (dumps-Reordered _ _ r)
        ∙ sorted-step k (dumps style w) (dumps_fields style fs) (dumps_fields style gs)
            (dumps_fields-Reordered _ _ rs)
    dumps_fields-Reordered _ _ (swapped {j = j} {k = k} {v = v} {w = w} {fs = fs} h) =
        swapped-sorted j k v w fs h
    dumps_fields-Reordered _ _ (then_so r s) =
        dumps_fields-Reordered _ _ r ∙ dumps_fields-Reordered _ _ s
