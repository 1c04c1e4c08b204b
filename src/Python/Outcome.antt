-- ===== src/Python/Outcome.antt =====
-- A Python call returns a value or raises. `ProtocolError` carries its code and its pointer; the
-- other exceptions carry their class and, where the program words it, their message. The message of
-- an exception that the interpreter itself raises is left empty.
use fala.Prelude.{◌≡◌, refl, String, Bool, true, false}

pub data Class : Type 0 where
  type_error value_error runtime_error overflow_error file_not_found key_error os_error
        attribute_error :
      Class
  -- `subprocess.CalledProcessError`
  process_error : Class

pub data Error : Type 0 where
  protocol_error : String → String → Error
  builtin : Class → String → Error
  -- only the model runs out of fuel
  out_of_fuel : Error

pub data Outcome {ℓ} (A : Type ℓ) : Type ℓ where
  ok : A → Outcome A
  raise : Error → Outcome A

-- An exception skips what follows it.
infixl 5 ◌>>◌
infixl 5 ◌>>=◌
abbrev pub ◌>>=◌ {κ ℓ} :
    {B : Type κ} {A : Type ℓ} (call : Outcome A) (next : A → Outcome B) → Outcome B
raise e >>= next = raise e
ok value >>= next = next value

abbrev pub ◌>>◌ {κ} : {B : Type κ} (first : Outcome (Unit {0})) (next : Outcome B) → Outcome B
first >> next = first >>= (λ done. next)

-- `if b: raise e`
abbrev pub raise_if : Bool → Error → Outcome (Unit {0})
raise_if true e = raise e
raise_if false e = ok tt

abbrev pub is_ok {ℓ} : {A : Type ℓ} → Outcome A → Bool
is_ok (ok _) = true
is_ok (raise _) = false

module _ {ℓ κ} {A : Type ℓ} {B : Type κ} where
  -- A chain that returned, taken apart: its first call returned, and so did the rest.
  pub invert {ν} :
      {P : Type ν} {b : B} (m : Outcome A) (f : A → Outcome B)
      → (m >>= f) ≡ ok b
      → ((a : A) → m ≡ ok a → f a ≡ ok b → P)
      → P
  invert (ok a) f h k = k a refl h
  invert (raise e) f h k = absurd (cc)

pub returned_value {ℓ} : {A : Type ℓ} {a b : A} → ok a ≡ ok b → a ≡ b
returned_value h = cc

pub raise_if-returned : (b : Bool) (e : Error) (u : Unit {0}) → raise_if b e ≡ ok u → b ≡ false
raise_if-returned true e u h = absurd (cc h)
raise_if-returned false e u h = refl
