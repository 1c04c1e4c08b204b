-- ===== src/Sdk/Inputs.antt =====
-- python/fala/sdk.py: what an effector reads from its request, and from the answers of others.
use fala.Prelude.{
  String, Bool, true, false, not, Option, none, some, List, [], ◌∷◌, if◌then◌else◌, ◌==◌, is_in,
}
use mathlib.Core.List.{reverse}
use fala.Prelude.Int.{pos, eqb_ℤ}
use fala.Python.Number.{whole, number_eq}
use fala.Python.Value.{
  Value, Items, Fields, null, bool, int, float, str, list, dict, nil, item, end, field, get,
}
use fala.Python.Text.{truthy}
use fala.Python.Json.{Platform}
use fala.Protocol.Message.{Request, Result}

-- `Mapping[str, Any] | Request`, and the same with a `Result`
pub data Manifest : Type 0 where
  request : Request → Manifest
  wire : Value → Manifest

pub data Answer : Type 0 where
  result : Result → Answer
  wire : Value → Answer

-- `_dict`
abbrev pub dict_or_empty : Option Value → Fields
dict_or_empty (some (dict fs)) = fs
dict_or_empty _ = end

-- `value.get(key)`, of what is known to be a mapping
abbrev pub get_from : String → Value → Option Value
get_from key v = get key (dict_or_empty (some v))

-- `input_values`
unfoldable pub input_values : Manifest → Fields
input_values (request r) = r.payload
input_values (wire m) = dict_or_empty (get_from "payload" m)

-- `INJECTED_INPUT_KEYS`
abbrev pub injected_input_keys : List String
injected_input_keys = "conduction" ∷ "upstream_reactions" ∷ "regulation" ∷ []

-- a dict comprehension that keeps the keys outside a set
unfoldable pub without_keys : List String → Fields → Fields
without_keys barred end = end
without_keys barred (field k v fs) =
    let rest = without_keys barred fs in if is_in k barred then rest else field k v rest

-- `declared_inputs`
unfoldable pub declared_inputs : Manifest → Fields
unfolding input_values without_keys
declared_inputs m = without_keys injected_input_keys (input_values m)

-- `conduction`
unfoldable pub conduction : Manifest → Fields
unfolding input_values
conduction m = dict_or_empty (get "conduction" (input_values m))

-- the comprehension of `_reaction_list`
unfoldable pub mappings : Items → List Fields
mappings nil = []
mappings (item (dict fs) vs) = fs ∷ mappings vs
mappings (item _ vs) = mappings vs

abbrev pub reaction_list : Option Value → List Fields
reaction_list (some (list vs)) = mappings vs
reaction_list _ = []

-- `upstream_reactions`
unfoldable pub upstream_reactions : Manifest → List Fields
unfolding input_values mappings
upstream_reactions m = reaction_list (get "upstream_reactions" (input_values m))

-- `reaction.get("kind") == kind`
abbrev pub has_kind : String → Fields → Bool
has_kind kind reaction = elim (get "kind" reaction) [ some (str s) ↦ s == kind | _ ↦ false ]

unfoldable pub first_of_kind : String → List Fields → Option Fields
first_of_kind kind [] = none
first_of_kind kind (r ∷ rs) = if has_kind kind r then some r else first_of_kind kind rs

-- `_find_latest`
unfoldable pub find_latest : List Fields → String → Option Fields
unfolding first_of_kind
find_latest reactions kind = first_of_kind kind (reverse reactions)

-- `find_reaction`
unfoldable pub find_reaction : Manifest → String → Option Fields
unfolding upstream_reactions find_latest
find_reaction m kind = find_latest (upstream_reactions m) kind

-- `output_reactions`
unfoldable pub output_reactions : Answer → List Fields
unfolding mappings
output_reactions (result r) = reaction_list (get "evidence" r.payload)
output_reactions (wire m) = reaction_list (get "evidence" (dict_or_empty (get_from "payload" m)))

-- `find_output_reaction`
unfoldable pub find_output_reaction : Answer → String → Option Fields
unfolding output_reactions find_latest
find_output_reaction a kind = find_latest (output_reactions a) kind

-- `config`
unfoldable pub config : Manifest → Fields
config (request r) = r.config
config (wire m) = dict_or_empty (get_from "config" m)

-- `bool(value)`
abbrev pub value_truthy : Value → Bool
value_truthy null = false
value_truthy (bool b) = b
value_truthy (int n) = not (eqb_ℤ n (pos 0))
value_truthy (float x) = not (number_eq x (whole (pos 0)))
value_truthy (str s) = truthy s
value_truthy (list nil) = false
value_truthy (list (item _ _)) = true
value_truthy (dict end) = false
value_truthy (dict (field _ _ _)) = true

module _ ⦃platform : Platform⦄ where
  abbrev text_or_empty : Option Value → String
  text_or_empty none = ""
  text_or_empty (some (str s)) = s
  text_or_empty (some v) = if value_truthy v then platform.text_of v else ""

  -- `request_identity`
  unfoldable pub request_identity : Fields → Fields
  request_identity m = field "id" (str (text_or_empty (get "id" m))) (
      field "from" (str (text_or_empty (get "from" m))) (
        field "to" (str (text_or_empty (get "to" m)))
          (field "job" (str (text_or_empty (get "job" m))) end)))
