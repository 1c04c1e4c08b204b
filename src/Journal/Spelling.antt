-- ===== src/Journal/Spelling.antt =====
-- python/fala/read.py: what `_safe` lets through can be spelled as JSON, so that the last step of `_row` raises nothing.
use fala.Prelude.{String, ◌≡◌, true, some, arith}
use fala.Python.Outcome.{ok, is_ok, invert}
use fala.Python.Value.{
  Value, Items, Fields, null, bool, int, float, str, list, dict, nil, item, end, field, get, pop,
  put,
}
use fala.Python.Json.{Platform, spaced, dumps, dumps_items, dumps_fields}
use fala.Journal.Records.{safe_value, safe_items, safe_fields}

module _ ⦃platform : Platform⦄ where
  -- `json.dumps` returns.
  abbrev pub IsSpelled : Value → Type 0
  IsSpelled v = is_ok (dumps spaced v) ≡ true

  abbrev pub AreSpelled : Fields → Type 0
  AreSpelled fs = is_ok (dumps_fields spaced fs) ≡ true

  pub AreSpelled-field :
      (k : String) (v : Value) (fs : Fields)
      → IsSpelled v
      → AreSpelled fs
      → AreSpelled (field k v fs)
  unfolding dumps_fields
  AreSpelled-field k v fs h g = ground (arith, h, g)

  AreSpelled-parts :
      (k : String) (v : Value) (fs : Fields)
      → AreSpelled (field k v fs)
      → IsSpelled v × AreSpelled fs
  unfolding dumps_fields
  AreSpelled-parts k v fs h = ground (arith, h)

  pub IsSpelled-dict : (fs : Fields) → AreSpelled fs → IsSpelled (dict fs)
  unfolding dumps
  IsSpelled-dict fs h = ground (arith, h)

  pub IsSpelled-get :
      (k : String) (fs : Fields) (v : Value) → get k fs ≡ some v → AreSpelled fs → IsSpelled v
  IsSpelled-get k end v e h = absurd (cc e)
  IsSpelled-get k (field j w fs) v e h =
      let (here, rest) = AreSpelled-parts j w fs h in
      ground (arith, e, here, IsSpelled-get k fs v, rest)

  pub AreSpelled-pop : (k : String) (fs : Fields) → AreSpelled fs → AreSpelled (pop k fs)
  AreSpelled-pop k end h = h
  AreSpelled-pop k (field j w fs) h =
      let (here, rest) = AreSpelled-parts j w fs h in
      ground (arith, rest, AreSpelled-field j w (pop k fs) here (AreSpelled-pop k fs rest))

  pub AreSpelled-put :
      (k : String) (v : Value) (fs : Fields) → IsSpelled v → AreSpelled fs → AreSpelled (put k v fs)
  AreSpelled-put k v end g h = AreSpelled-field k v end g h
  AreSpelled-put k v (field j w fs) g h =
      let (here, rest) = AreSpelled-parts j w fs h in
      ground (
        arith,
        AreSpelled-field j v fs g rest,
        AreSpelled-field j w (put k v fs) here (AreSpelled-put k v fs g rest),
      )

  mutual
    unfolding safe_value dumps

    pub safe_value-IsSpelled :
        (name : String) (v w : Value) → safe_value name v ≡ ok w → IsSpelled w
    safe_value-IsSpelled name null w h = ground (arith, h)
    safe_value-IsSpelled name (bool b) w h = ground (arith, h)
    safe_value-IsSpelled name (int n) w h = ground (arith, h)
    safe_value-IsSpelled name (str s) w h = ground (arith, h)
    safe_value-IsSpelled name (float x) w h = ground (arith, h)
    safe_value-IsSpelled name (list vs) w h =
        invert (safe_items vs) _ h λ ws p h₁. ground (arith, h₁, safe_items-spelled vs ws p)
    safe_value-IsSpelled name (dict fs) w h =
        invert (safe_fields fs) _ h λ gs p h₁. ground (arith, h₁, safe_fields-spelled fs gs p)

    safe_items-spelled :
        (vs ws : Items) → safe_items vs ≡ ok ws → is_ok (dumps_items spaced ws) ≡ true
    safe_items-spelled nil ws h = ground (arith, h)
    safe_items-spelled (item v vs) ws h = invert (safe_value "" v) _ h λ x p h₁.
        invert (safe_items vs) _ h₁
          λ xs q h₂. ground (arith, h₂, safe_value-IsSpelled "" v x p, safe_items-spelled vs xs q)

    safe_fields-spelled : (fs gs : Fields) → safe_fields fs ≡ ok gs → AreSpelled gs
    safe_fields-spelled end gs h = ground (arith, h)
    safe_fields-spelled (field k v fs) gs h = invert (safe_value "" v) _ h λ x p h₁.
        invert (safe_fields fs) _ h₁
          λ xs q h₂. ground (arith, h₂, safe_value-IsSpelled "" v x p, safe_fields-spelled fs xs q)
