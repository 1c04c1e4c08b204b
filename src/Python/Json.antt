-- ===== src/Python/Json.antt =====
-- `json.dumps(value, ensure_ascii=False, allow_nan=False, sort_keys=True, separators=…)`, for the two
-- pairs of separators that the program uses. What Python's runtime computes for the program and the
-- model does not spell out is `Platform`.
use Prim.Native.Char.{Char, code}
use fala.Prelude.{◌/◌, ◌%◌, String, ◌<>◌, Option, List, [], ◌∷◌, map, if◌then◌else◌, ltb, eqb}
use fala.Prelude.Int.{ℤ}
use fala.Python.Number.{Float, is_finite}
use fala.Python.Outcome.{Outcome, ok, raise, builtin, value_error, ◌>>=◌}
use fala.Python.Value.{
  Value, Items, Fields, null, bool, int, float, str, list, dict, nil, item, end, field,
}
use fala.Python.Text.{str_lt, one_char, hex_digit, decimal_ℤ}

-- The standard library's calls that stay abstract.
pub record Platform : Type 0 where
  -- `hashlib.sha256(text.encode("utf-8")).hexdigest()`
  pub sha256_hex : String → String
  -- `float.__repr__` of a finite float
  pub float_repr : Float → String
  -- `int(text)`; `none` is a ValueError
  pub int_of_text : String → Option ℤ
  -- `text.strip()`
  pub strip : String → String
  -- `text.upper()`
  pub upper : String → String
  -- `str(value)` of a value that is no text
  pub text_of : Value → String
  -- `json.loads(text)`; `none` is a JSONDecodeError
  pub loads : String → Option Value

-- The separators behind an item and behind a key.
pub record Style : Type 0 where
  pub item_separator : String
  pub key_separator : String

-- `separators=(",", ":")`, and the default pair
abbrev pub compact : Style
compact = record { item_separator = ","; key_separator = ":" }

abbrev pub spaced : Style
spaced = record { item_separator = ", "; key_separator = ": " }

-- a character inside a JSON string
abbrev pub escape_char : Char → String
escape_char c =
    let n = code c in
    if eqb n 34
    then "\\\""
    else if eqb n 92
    then "\\\\"
    else if eqb n 8
    then "\\b"
    else if eqb n 9
    then "\\t"
    else if eqb n 10
    then "\\n"
    else if eqb n 12
    then "\\f"
    else if eqb n 13
    then "\\r"
    else if ltb n 32
    then "\\u00" <> (hex_digit (n / 16) <> hex_digit (n % 16))
    else one_char c

unfoldable pub escape : String → String
escape String.[] = String.[]
escape (String.◌∷◌ c s) = escape_char c <> escape s

abbrev pub quote : String → String
quote s = "\"" <> (escape s <> "\"")

-- `sep.join(parts)`
abbrev pub join : String → List String → String
join sep [] = ""
join sep (x ∷ []) = x
join sep (x ∷ y ∷ rest) = x <> (sep <> join sep (y ∷ rest))

-- `sorted(d.items())`: the keys of a dict differ, so only they are compared.
abbrev pub insert_entry : String × String → List (String × String) → List (String × String)
insert_entry e [] = e ∷ []
insert_entry e (d ∷ ds) = if str_lt d.0 e.0 then d ∷ insert_entry e ds else e ∷ d ∷ ds

abbrev pub sort_entries : List (String × String) → List (String × String)
sort_entries [] = []
sort_entries (e ∷ es) = insert_entry e (sort_entries es)

module _ ⦃platform : Platform⦄ (style : Style) where
  abbrev pub spell_entry : String × String → String
  spell_entry (k, v) = quote k <> (style.key_separator <> v)

  abbrev pub spell_dict : List (String × String) → String
  spell_dict es = "{" <> (join style.item_separator (map spell_entry (sort_entries es)) <> "}")

  -- `allow_nan=False`: a float that is no number raises ValueError.
  unfoldable mutual
    pub dumps : Value → Outcome String
    dumps null = ok "null"
    dumps (bool b) = ok (if b then "true" else "false")
    dumps (int n) = ok (decimal_ℤ n)
    dumps (float x) =
        if is_finite x then ok (platform.float_repr x) else raise (builtin value_error "")
    dumps (str s) = ok (quote s)
    dumps (list vs) = do
      parts ← dumps_items vs
      ok ("[" <> (join style.item_separator parts <> "]"))
    dumps (dict fs) = do parts ← dumps_fields fs; ok (spell_dict parts)

    pub dumps_items : Items → Outcome (List String)
    dumps_items nil = ok []
    dumps_items (item v vs) = do part ← dumps v; parts ← dumps_items vs; ok (part ∷ parts)

    pub dumps_fields : Fields → Outcome (List (String × String))
    dumps_fields end = ok []
    dumps_fields (field k v fs) = do part ← dumps v; parts ← dumps_fields fs; ok ((k, part) ∷ parts)
