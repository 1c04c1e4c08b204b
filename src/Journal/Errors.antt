-- ===== src/Journal/Errors.antt =====
-- python/fala/read.py: which exceptions reading a row may raise.
use fala.Prelude.{
  String, ◌≡◌, refl, inl, inr, Bool, true, false, Option, none, some, List, [], ◌∷◌, arith,
  if◌then◌else◌, is_in, Bool-cases,
}
use fala.Python.Outcome.{
  Class, Outcome, ok, raise, raise_if, builtin, protocol_error, out_of_fuel, runtime_error, ◌>>=◌,
  ◌>>◌,
}
use fala.Python.Value.{Value, Items, Fields, float, list, dict, nil, item, end, field}
use fala.Python.Json.{Platform, dumps}
use fala.Inspection.Rows.{Cell, integer, real, blob}
use fala.Journal.Records.{
  Record, json_fields, safe_value, safe_items, safe_fields, plain_cell, json_cell, loaded,
  safe_cell, read_columns,
}
use fala.Journal.Spelling.{IsSpelled, safe_value-IsSpelled}

-- A call that returns, or raises the one built-in exception.
abbrev pub RaisesOnly {ℓ} : {A : Type ℓ} → Class → Outcome A → Type 0
RaisesOnly c (ok _) = Unit
RaisesOnly c (raise (builtin d _)) = d ≡ c
RaisesOnly c (raise (protocol_error _ _)) = ⊥
RaisesOnly c (raise out_of_fuel) = ⊥

module _ {ℓ κ} {A : Type ℓ} {B : Type κ} where
  pub RaisesOnly-chain :
      (c : Class) (m : Outcome A) (f : A → Outcome B)
      → RaisesOnly c m
      → ((a : A) → m ≡ ok a → RaisesOnly c (f a))
      → RaisesOnly c (m >>= f)
  RaisesOnly-chain c (ok a) f h k = k a refl
  RaisesOnly-chain c (raise (builtin _ _)) f h k = h
  RaisesOnly-chain c (raise (protocol_error _ _)) f h k = h
  RaisesOnly-chain c (raise out_of_fuel) f h k = h

pub RaisesOnly-raise_if :
    (c : Class) (b : Bool) (m : String) → RaisesOnly c (raise_if b (builtin c m))
RaisesOnly-raise_if c true m = refl
RaisesOnly-raise_if c false m = tt

pub RaisesOnly-guard {κ} :
    {B : Type κ} (c : Class) (b : Bool) (m : String) (k : Outcome B)
    → RaisesOnly c k
    → RaisesOnly c (raise_if b (builtin c m) >> k)
RaisesOnly-guard c true m k h = refl
RaisesOnly-guard c false m k h = h

finite_or :
    (b : Bool) (v : Value) (m : String)
    → RaisesOnly runtime_error (if b then ok v else raise (builtin runtime_error m))
finite_or true v m = tt
finite_or false v m = refl

mutual
  unfolding safe_value

  safe_value-RaisesOnly : (name : String) (v : Value) → RaisesOnly runtime_error (safe_value name v)
  safe_value-RaisesOnly name (float x) = finite_or _ _ _
  safe_value-RaisesOnly name (list vs) =
      RaisesOnly-chain runtime_error (safe_items vs) _ (safe_items-RaisesOnly vs) (λ ws e. tt)
  safe_value-RaisesOnly name (dict fs) =
      RaisesOnly-chain runtime_error (safe_fields fs) _ (safe_fields-RaisesOnly fs) (λ gs e. tt)
  safe_value-RaisesOnly name _ = tt

  safe_items-RaisesOnly : (vs : Items) → RaisesOnly runtime_error (safe_items vs)
  safe_items-RaisesOnly nil = tt
  safe_items-RaisesOnly (item v vs) =
      RaisesOnly-chain runtime_error (safe_value "" v) _ (safe_value-RaisesOnly "" v) (λ w e.
        RaisesOnly-chain runtime_error (safe_items vs) _ (safe_items-RaisesOnly vs) (λ ws d. tt))

  safe_fields-RaisesOnly : (fs : Fields) → RaisesOnly runtime_error (safe_fields fs)
  safe_fields-RaisesOnly end = tt
  safe_fields-RaisesOnly (field k v fs) =
      RaisesOnly-chain runtime_error (safe_value "" v) _ (safe_value-RaisesOnly "" v) (λ w e.
        RaisesOnly-chain runtime_error (safe_fields fs) _ (safe_fields-RaisesOnly fs) (λ gs d. tt))

plain_cell-RaisesOnly : (name : String) (c : Cell) → RaisesOnly runtime_error (plain_cell name c)
plain_cell-RaisesOnly name Cell.null = tt
plain_cell-RaisesOnly name (integer n) = tt
plain_cell-RaisesOnly name (real x) = finite_or _ _ _
plain_cell-RaisesOnly name (Cell.text s) = tt
plain_cell-RaisesOnly name (blob hex) = refl

module _ ⦃platform : Platform⦄ where
  plain_cell-IsSpelled :
      (name : String) (c : Cell) (v : Value) → plain_cell name c ≡ ok v → IsSpelled v
  unfolding dumps
  plain_cell-IsSpelled name c v h = ground (arith, h)

  loaded-RaisesOnly : (name : String) (v : Option Value) → RaisesOnly runtime_error (loaded name v)
  loaded-RaisesOnly name none = refl
  loaded-RaisesOnly name (some v) = safe_value-RaisesOnly name v

  loaded-IsSpelled :
      (name : String) (v : Option Value) (w : Value) → loaded name v ≡ ok w → IsSpelled w
  loaded-IsSpelled name none w h = absurd (cc h)
  loaded-IsSpelled name (some v) w h = safe_value-IsSpelled name v w h

  json_cell-RaisesOnly : (name : String) (c : Cell) → RaisesOnly runtime_error (json_cell name c)
  json_cell-RaisesOnly name (Cell.text s) = loaded-RaisesOnly name (platform.loads s)
  json_cell-RaisesOnly name _ = refl

  json_cell-IsSpelled :
      (name : String) (c : Cell) (v : Value) → json_cell name c ≡ ok v → IsSpelled v
  json_cell-IsSpelled name (Cell.text s) v h = loaded-IsSpelled name (platform.loads s) v h
  json_cell-IsSpelled name _ v h = absurd (cc h)

  safe_cell-RaisesOnly : (name : String) (c : Cell) → RaisesOnly runtime_error (safe_cell name c)
  unfolding safe_cell
  safe_cell-RaisesOnly name c = elim (Bool-cases (is_in name json_fields)) [
    | inl e ↦ rw e (json_cell-RaisesOnly name c)
    | inr e ↦ rw e (plain_cell-RaisesOnly name c)
  ]

  pub safe_cell-IsSpelled :
      (name : String) (c : Cell) (v : Value) → safe_cell name c ≡ ok v → IsSpelled v
  unfolding safe_cell
  safe_cell-IsSpelled name c v h = elim (Bool-cases (is_in name json_fields)) [
    | inl e ↦ json_cell-IsSpelled name c v (rw e at h)
    | inr e ↦ plain_cell-IsSpelled name c v (rw e at h)
  ]

  pub read_columns-RaisesOnly :
      (columns : List String) (row : Record) → RaisesOnly runtime_error (read_columns columns row)
  unfolding read_columns
  read_columns-RaisesOnly [] row = tt
  read_columns-RaisesOnly (name ∷ names) row =
      RaisesOnly-chain runtime_error (safe_cell name (row name)) _
        (safe_cell-RaisesOnly name (row name))
        (λ v e.
          RaisesOnly-chain runtime_error (read_columns names row) _
            (read_columns-RaisesOnly names row) (λ fs d. tt))
