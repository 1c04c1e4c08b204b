-- ===== src/Python/Value.antt =====
-- The values that `json.loads` returns and `json.dumps` takes. A dict keeps its keys in insertion
-- order; the `list` and the `dict` inside a value are the two other types of the block.
use fala.Prelude.{
  ℕ, suc, String, Bool, true, false, ◌&&◌, ◌||◌, Option, none, some, List, [], ◌∷◌, if◌then◌else◌,
  ◌==◌, eqb,
}
use fala.Prelude.Int.{ℤ, pos}
use fala.Python.Number.{Float, nan, whole, number_eq}

mutual
  pub data Value : Type 0 where
    null : Value
    bool : Bool → Value
    int : ℤ → Value
    float : Float → Value
    str : String → Value
    list : Items → Value
    dict : Fields → Value

  pub data Fields : Type 0 where
    end : Fields
    field : String → Value → Fields → Fields

  pub data Items : Type 0 where
    nil : Items
    item : Value → Items → Items

abbrev pub elements : Items → List Value
elements nil = []
elements (item v vs) = v ∷ elements vs

abbrev pub items_of : List Value → Items
items_of [] = nil
items_of (v ∷ vs) = item v (items_of vs)

abbrev pub entries : Fields → List (String × Value)
entries end = []
entries (field k v fs) = (k, v) ∷ entries fs

abbrev pub keys : Fields → List String
keys end = []
keys (field k v fs) = k ∷ keys fs

-- `d.get(k)`, before the default
abbrev pub get : String → Fields → Option Value
get k end = none
get k (field j v fs) = if k == j then some v else get k fs

-- `k in d`
abbrev pub has : String → Fields → Bool
has k end = false
has k (field j v fs) = if k == j then true else has k fs

-- `d.pop(k)`
abbrev pub pop : String → Fields → Fields
pop k end = end
pop k (field j v fs) = if k == j then fs else field j v (pop k fs)

-- `d[k] = v`
abbrev pub put : String → Value → Fields → Fields
put k v end = field k v end
put k v (field j w fs) = if k == j then field j v fs else field j w (put k v fs)

abbrev pub count_items : Items → ℕ
count_items nil = 0
count_items (item _ vs) = suc (count_items vs)

abbrev pub count_fields : Fields → ℕ
count_fields end = 0
count_fields (field _ _ fs) = suc (count_fields fs)

-- the number that a value stands for in a comparison; `True` is 1
abbrev pub as_number : Value → Option Float
as_number (bool b) = some (whole (if b then pos 1 else pos 0))
as_number (int n) = some (whole n)
as_number (float x) = some x
as_number _ = none

abbrev same_number : Option Float → Option Float → Bool
same_number (some x) (some y) = number_eq x y
same_number _ _ = false

-- `a is b`, as far as it shows: `json.loads` has one object for NaN, which `in` and the comparison of two lists
-- or dicts find by its identity though it does not equal itself.
abbrev pub same_nan : Value → Value → Bool
same_nan (float nan) (float nan) = true
same_nan _ _ = false

-- `a == b`. Dicts are equal whatever the order of their keys. All else that is identical is equal too.
unfoldable mutual
  pub value_eq : Value → Value → Bool
  value_eq null null = true
  value_eq (str s) (str t) = s == t
  value_eq (list xs) (list ys) = items_eq xs ys
  value_eq (dict fs) (dict gs) = eqb (count_fields fs) (count_fields gs) && fields_eq fs gs
  value_eq a b = same_number (as_number a) (as_number b)

  pub items_eq : Items → Items → Bool
  items_eq nil nil = true
  items_eq (item v vs) (item w ws) = (same_nan v w || value_eq v w) && items_eq vs ws
  items_eq _ _ = false

  -- every key of the first has an equal value in the second
  pub fields_eq : Fields → Fields → Bool
  fields_eq end gs = true
  fields_eq (field k v fs) gs =
      elim (get k gs) [ none ↦ false | some w ↦ same_nan v w || value_eq v w ] && fields_eq fs gs

-- `a is b or a == b`, by which `in` searches a list
abbrev pub found_eq : Value → Value → Bool
found_eq a b = same_nan a b || value_eq a b
