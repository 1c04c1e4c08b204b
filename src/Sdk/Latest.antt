-- ===== src/Sdk/Latest.antt =====
-- Which reaction `_find_latest` returns, and what `declared_inputs` keeps.
use mathlib.Core.List.{reverse, reverse-append, append_assoc}
use fala.Prelude.{
  String, ◌≡◌, refl, true, false, none, some, List, [], ◌∷◌, ◌++◌, arith, eq_iff, is_in, Each,
  if◌then◌else◌,
}
use fala.Python.Value.{Fields, end, field, get}
use fala.Sdk.Inputs.{
  Manifest, input_values, injected_input_keys, without_keys, declared_inputs, has_kind,
  first_of_kind, find_latest,
}

get-without_keys :
    (barred : List String) (fs : Fields) (k : String)
    → get k (without_keys barred fs) ≡ (if is_in k barred then none else get k fs)
unfolding without_keys
get-without_keys barred end k = ground arith
get-without_keys barred (field j v fs) k = ground (arith, eq_iff k j, get-without_keys barred fs k)

-- The declared inputs are the input values, less exactly the keys that the correlator injects.
pub get-declared_inputs :
    (m : Manifest) (k : String)
    → get k (declared_inputs m)
      ≡ (if is_in k injected_input_keys then none else get k (input_values m))
unfolding declared_inputs
get-declared_inputs m k = get-without_keys injected_input_keys (input_values m) k

-- a reaction that is not of the kind
abbrev pub LacksKind : String → Fields → Type 0
LacksKind kind r = has_kind kind r ≡ false

first_of_kind-append :
    (kind : String) (xs ys : List Fields)
    → Each (LacksKind kind) xs
    → first_of_kind kind (xs ++ ys) ≡ first_of_kind kind ys
unfolding first_of_kind
first_of_kind-append kind [] ys h = refl
first_of_kind-append kind (x ∷ xs) ys (here, rest) = rw here (first_of_kind-append kind xs ys rest)

Each-append {ℓ κ} :
    {A : Type ℓ} (P : A → Type κ) (xs ys : List A) → Each P xs → Each P ys → Each P (xs ++ ys)
Each-append P [] ys h k = k
Each-append P (x ∷ xs) ys (here, rest) k = (here, Each-append P xs ys rest k)

Each-reverse {ℓ κ} : {A : Type ℓ} (P : A → Type κ) (xs : List A) → Each P xs → Each P (reverse xs)
Each-reverse P [] h = tt
Each-reverse P (x ∷ xs) (here, rest) =
    rw (reverse-append (x ∷ []) xs)
      (Each-append P (reverse xs) (x ∷ []) (Each-reverse P xs rest) (here, tt))

-- Among several reactions of a kind the last one emitted is found: whatever came before it, as long
-- as none of that kind came after it.
pub find_latest_last :
    (before after : List Fields) (r : Fields) (kind : String)
    → has_kind kind r ≡ true
    → Each (LacksKind kind) after
    → find_latest (before ++ r ∷ after) kind ≡ some r
unfolding find_latest first_of_kind
find_latest_last before after r kind h k =
    rw
      (
        reverse-append before (r ∷ after),
        reverse-append (r ∷ []) after,
        append_assoc (reverse after) (r ∷ []) (reverse before),
        first_of_kind-append kind (reverse after) (r ∷ reverse before)
            (Each-reverse (LacksKind kind) after k),
        h,
      )
      refl
