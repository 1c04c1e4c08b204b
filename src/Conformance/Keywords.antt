-- ===== src/Conformance/Keywords.antt =====
-- python/fala/conformance.py: what `check_payload` tests of a payload without a call of itself, one
-- function for each keyword.
use fala.Prelude.{
  ℕ, zero, suc, ◌/◌, ◌^◌, String, ◌<>◌, Bool, false, not, ◌||◌, Option, none, some, List, [], ◌∷◌,
  if◌then◌else◌, ◌==◌, any, is_in,
}
use fala.Prelude.Int.{ℤ, pos, negsuc, ltb_ℤ}
use fala.Python.Outcome.{
  Outcome, ok, raise, raise_if, Error, protocol_error, builtin, type_error, value_error,
  overflow_error, ◌>>=◌, ◌>>◌,
}
use fala.Python.Number.{Float, finite, infinity, minus_infinity, nan, whole, number_lt}
use fala.Python.Value.{
  Value, Items, Fields, null, bool, int, float, str, list, dict, nil, item, elements, keys, get,
  has, as_number, value_eq, found_eq,
}
use fala.Python.Text.{str_len, replace_char, least}
use fala.Python.Json.{Platform}

-- `_json_pointer_token`
unfoldable pub json_pointer_token : String → String
unfolding replace_char
json_pointer_token key = replace_char 47 "~1" (replace_char 126 "~0" key)

-- `_payload_type_name`
abbrev pub payload_type_name : Value → String
payload_type_name null = "null"
payload_type_name (bool _) = "boolean"
payload_type_name (int _) = "integer"
payload_type_name (float _) = "number"
payload_type_name (str _) = "string"
payload_type_name (list _) = "array"
payload_type_name (dict _) = "object"

-- `_type_matches`
unfoldable pub type_matches : Value → String → Bool
type_matches value declared =
    let actual = payload_type_name value in
    if declared == "number"
    then actual == "number" || actual == "integer"
    else if declared == "integer"
    then actual == "integer"
    else actual == declared

-- `_SUPPORTED_SCHEMA_KEYS`
abbrev pub supported_schema_keys : List String
supported_schema_keys =
    "type" ∷ "const" ∷ "enum" ∷ "required" ∷ "properties" ∷ "items" ∷ "minimum" ∷ "maximum"
    ∷ "minLength" ∷ "maxLength" ∷ "minItems" ∷ "maxItems" ∷ "additionalProperties" ∷ "oneOf"
    ∷ "anyOf" ∷ "allOf" ∷ "title" ∷ "description" ∷ "$comment" ∷ []

-- `raise ProtocolError("fep.payload_invalid", path)`
abbrev pub invalid : String → Error
invalid path = protocol_error "fep.payload_invalid" path

-- `path + "/" + token`
abbrev pub below : String → String → String
below path token = path <> ("/" <> token)

abbrev minus : ℕ → ℤ
minus zero = pos 0
minus (suc n) = negsuc n

abbrev truncate : ℤ → ℕ → ℤ
truncate (pos n) k = pos (n / 2 ^ k)
truncate (negsuc n) k = minus (suc n / 2 ^ k)

abbrev pub or_value_error : Option ℤ → Outcome ℤ
or_value_error none = raise (builtin value_error "")
or_value_error (some n) = ok n

module _ ⦃platform : Platform⦄ where
  -- `int(value)`
  unfoldable pub int_of : Value → Outcome ℤ
  int_of (bool b) = ok (pos (if b then 1 else 0))
  int_of (int n) = ok n
  int_of (float (finite m k)) = ok (truncate m k)
  int_of (float nan) = raise (builtin value_error "")
  int_of (float infinity) = raise (builtin overflow_error "")
  int_of (float minus_infinity) = raise (builtin overflow_error "")
  int_of (str s) = or_value_error (platform.int_of_text s)
  int_of _ = raise (builtin type_error "")

  -- `str(key)`
  abbrev pub key_text : Value → String
  key_text (str s) = s
  key_text v = platform.text_of v

  -- `if key in schema and …: raise`, for a bound that goes through `int`
  abbrev pub limit_under : (ℤ → Bool) → Option Value → String → Outcome (Unit {0})
  limit_under broken none path = ok tt
  limit_under broken (some v) path = do n ← int_of v; raise_if (broken n) (invalid path)

  unfoldable pub check_limit : String → (ℤ → Bool) → Fields → String → Outcome (Unit {0})
  unfolding int_of
  check_limit key broken schema path = limit_under broken (get key schema) path

-- `set(schema) - _SUPPORTED_SCHEMA_KEYS`
unfoldable pub unsupported : List String → List String
unsupported [] = []
unsupported (k ∷ ks) =
    let rest = unsupported ks in if is_in k supported_schema_keys then rest else k ∷ rest

abbrev pub refuse_keyword : Option String → String → Outcome (Unit {0})
refuse_keyword none path = ok tt
refuse_keyword (some k) path = raise (invalid (below path (json_pointer_token k)))

unfoldable pub check_keywords : Fields → String → Outcome (Unit {0})
unfolding unsupported json_pointer_token
check_keywords schema path = refuse_keyword (least (unsupported (keys schema))) path

abbrev pub const_under : Value → Option Value → String → Outcome (Unit {0})
const_under payload none path = ok tt
const_under payload (some c) path = raise_if (not (value_eq payload c)) (invalid path)

unfoldable pub check_const : Value → Fields → String → Outcome (Unit {0})
check_const payload schema path = const_under payload (get "const" schema) path

abbrev pub enum_under : Value → Option Value → String → Outcome (Unit {0})
enum_under payload none path = ok tt
enum_under payload (some (list options)) path =
    raise_if (not (any (λ x. found_eq payload x) (elements options))) (invalid path)
enum_under payload (some _) path = raise (invalid path)

unfoldable pub check_enum : Value → Fields → String → Outcome (Unit {0})
check_enum payload schema path = enum_under payload (get "enum" schema) path

abbrev pub matches_name : Value → Value → Bool
matches_name payload (str t) = type_matches payload t
matches_name payload _ = false

abbrev pub type_under : Value → Option Value → String → Outcome (Unit {0})
type_under payload (some (str t)) path = raise_if (not (type_matches payload t)) (invalid path)
type_under payload (some (list ts)) path =
    raise_if (not (any (λ t. matches_name payload t) (elements ts))) (invalid path)
type_under payload _ path = ok tt

unfoldable pub check_type : Value → Fields → String → Outcome (Unit {0})
check_type payload schema path = type_under payload (get "type" schema) path

-- `payload < bound` or `payload > bound`; a bound that is no number raises TypeError.
abbrev pub compared : (Float → Bool) → Option Float → String → Outcome (Unit {0})
compared broken none path = raise (builtin type_error "")
compared broken (some y) path = raise_if (broken y) (invalid path)

abbrev pub bound_under : (Float → Bool) → Option Value → String → Outcome (Unit {0})
bound_under broken none path = ok tt
bound_under broken (some v) path = compared broken (as_number v) path

unfoldable pub check_bound : String → (Float → Bool) → Fields → String → Outcome (Unit {0})
check_bound key broken schema path = bound_under broken (get key schema) path

abbrev pub check_range : Float → Fields → String → Outcome (Unit {0})
check_range x schema path = do
  check_bound "minimum" (λ y. number_lt x y) schema path
  check_bound "maximum" (λ y. number_lt y x) schema path

unfoldable pub check_number : Value → Fields → String → Outcome (Unit {0})
unfolding check_bound
check_number (int n) schema path = check_range (whole n) schema path
check_number (float x) schema path = check_range x schema path
check_number _ schema path = ok tt

abbrev pub Checker : Type 0
Checker = Value → Value → String → Outcome (Unit {0})

module _ ⦃platform : Platform⦄ where
  unfoldable pub check_string : Value → Fields → String → Outcome (Unit {0})
  unfolding check_limit
  check_string (str s) schema path = do
    check_limit "minLength" (λ n. ltb_ℤ (pos (str_len s)) n) schema path
    check_limit "maxLength" (λ n. ltb_ℤ n (pos (str_len s))) schema path
  check_string _ schema path = ok tt

  unfoldable pub check_required_keys : Items → Fields → String → Outcome (Unit {0})
  unfolding json_pointer_token
  check_required_keys nil payload path = ok tt
  check_required_keys (item (str key) ks) payload path = do
    raise_if (not (has key payload)) (invalid (below path (json_pointer_token key)))
    check_required_keys ks payload path
  check_required_keys (item key ks) payload path =
      raise (invalid (below path (json_pointer_token (key_text key))))

  abbrev pub required_under : Option Value → Fields → String → Outcome (Unit {0})
  required_under (some (list ks)) payload path = check_required_keys ks payload path
  required_under _ payload path = ok tt

  unfoldable pub check_required : Fields → Fields → String → Outcome (Unit {0})
  unfolding check_required_keys
  check_required payload schema path = required_under (get "required" schema) payload path

-- `for key in payload: if key not in properties: raise`
unfoldable pub check_no_others : List String → Fields → String → Outcome (Unit {0})
unfolding json_pointer_token
check_no_others [] properties path = ok tt
check_no_others (k ∷ ks) properties path = do
  raise_if (not (has k properties)) (invalid (below path (json_pointer_token k)))
  check_no_others ks properties path

abbrev pub others_barred : Fields → Value → Value → String → Outcome (Unit {0})
others_barred payload (dict properties) (bool false) path =
    check_no_others (keys payload) properties path
others_barred payload _ _ path = ok tt

abbrev pub or_null : Option Value → Value
or_null none = null
or_null (some v) = v

unfoldable pub check_additional : Fields → Fields → String → Outcome (Unit {0})
unfolding check_no_others
check_additional payload schema path =
    others_barred payload (or_null (get "properties" schema))
      (or_null (get "additionalProperties" schema)) path
