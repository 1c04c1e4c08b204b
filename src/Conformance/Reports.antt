-- ===== src/Conformance/Reports.antt =====
-- What the keyword checks of `check_payload` may raise: a refusal always has one code, and its
-- pointer lies at or below the path that was asked about.
use text.Mathlib.TextLemmas.{append-nil, append_assoc}
use fala.Prelude.{
  String, ◌<>◌, ◌≡◌, refl, sym, ◌∙◌, Bool, true, false, Option, none, some, List, [], ◌∷◌,
}
use fala.Prelude.Int.{ℤ}
use fala.Python.Outcome.{
  Outcome, ok, raise, raise_if, protocol_error, builtin, out_of_fuel, ◌>>=◌, ◌>>◌,
}
use fala.Python.Number.{Float, finite, infinity, minus_infinity, nan}
use fala.Python.Value.{
  Value, Items, Fields, null, bool, int, float, str, list, dict, nil, item, get, keys, as_number,
}
use fala.Python.Json.{Platform}
use fala.Conformance.Keywords.{
  invalid, below, json_pointer_token, int_of, or_value_error, limit_under, refuse_keyword,
  const_under, enum_under, type_under, compared, bound_under, check_range, required_under,
  check_bound, check_string, check_number, check_required_keys, check_no_others, others_barred,
}

-- A way to end that is allowed below `path`.
abbrev pub Reports : String → Outcome (Unit {0}) → Type 0
Reports path (ok _) = Unit
Reports path (raise (protocol_error code pointer)) =
    (code ≡ "fep.payload_invalid") × ((rest : String) × (pointer ≡ path <> rest))
Reports path (raise (builtin _ _)) = Unit
Reports path (raise out_of_fuel) = ⊥

module _ (path : String) where
  pub Reports-ok : Reports path (ok tt)
  Reports-ok = tt

  pub Reports-invalid : Reports path (raise (invalid path))
  Reports-invalid = (refl, ("", sym (append-nil path)))

  pub Reports-below :
      (token : String) (r : Outcome (Unit {0})) → Reports (below path token) r → Reports path r
  Reports-below token (ok _) h = tt
  Reports-below token (raise (protocol_error code pointer)) (c, (rest, e)) =
      (c, (("/" <> token) <> rest, e ∙ append_assoc path ("/" <> token) rest))
  Reports-below token (raise (builtin _ _)) h = tt
  Reports-below token (raise out_of_fuel) h = h

  pub Reports-raise_if : (b : Bool) → Reports path (raise_if b (invalid path))
  Reports-raise_if true = Reports-invalid
  Reports-raise_if false = tt

  pub Reports-seq :
      (m k : Outcome (Unit {0})) → Reports path m → Reports path k → Reports path (m >> k)
  Reports-seq (ok _) k hm hk = hk
  Reports-seq (raise e) k hm hk = hm

  pub Reports-invalid-below : (token : String) → Reports path (raise (invalid (below path token)))
  Reports-invalid-below token = (refl, ("/" <> token, refl))

  pub Reports-raise_if-below :
      (b : Bool) (token : String) → Reports path (raise_if b (invalid (below path token)))
  Reports-raise_if-below true token = Reports-invalid-below token
  Reports-raise_if-below false token = tt

module _ ⦃platform : Platform⦄ (path : String) where
  -- Neither `int` nor a comparison raises a ProtocolError.
  pub int_of-Reports :
      (v : Value) (f : ℤ → Outcome (Unit {0}))
      → ((n : ℤ) → Reports path (f n))
      → Reports path (int_of v >>= f)
  unfolding int_of
  int_of-Reports null f h = tt
  int_of-Reports (bool b) f h = h _
  int_of-Reports (int n) f h = h n
  int_of-Reports (float (finite m k)) f h = h _
  int_of-Reports (float infinity) f h = tt
  int_of-Reports (float minus_infinity) f h = tt
  int_of-Reports (float nan) f h = tt
  int_of-Reports (str s) f h = text_Reports (platform.int_of_text s)
    where
      text_Reports : (o : Option ℤ) → Reports path (or_value_error o >>= f)
      text_Reports none = tt
      text_Reports (some n) = h n
  int_of-Reports (list vs) f h = tt
  int_of-Reports (dict fs) f h = tt

  pub limit_under-Reports :
      (broken : ℤ → Bool) (o : Option Value) → Reports path (limit_under broken o path)
  limit_under-Reports broken none = tt
  limit_under-Reports broken (some v) = int_of-Reports v _ (λ n. Reports-raise_if path (broken n))

  pub check_string-Reports : (v : Value) (fs : Fields) → Reports path (check_string v fs path)
  unfolding check_string
  check_string-Reports (str s) fs =
      Reports-seq path _ _ (limit_under-Reports _ (get "minLength" fs))
        (limit_under-Reports _ (get "maxLength" fs))
  check_string-Reports _ fs = tt

  pub refuse_keyword-Reports : (o : Option String) → Reports path (refuse_keyword o path)
  refuse_keyword-Reports none = tt
  refuse_keyword-Reports (some k) = Reports-invalid-below path (json_pointer_token k)

  pub const_under-Reports : (v : Value) (o : Option Value) → Reports path (const_under v o path)
  const_under-Reports v none = tt
  const_under-Reports v (some c) = Reports-raise_if path _

  pub enum_under-Reports : (v : Value) (o : Option Value) → Reports path (enum_under v o path)
  enum_under-Reports v none = tt
  enum_under-Reports v (some (list options)) = Reports-raise_if path _
  enum_under-Reports v (some _) = Reports-invalid path

  pub type_under-Reports : (v : Value) (o : Option Value) → Reports path (type_under v o path)
  type_under-Reports v none = tt
  type_under-Reports v (some (str t)) = Reports-raise_if path _
  type_under-Reports v (some (list ts)) = Reports-raise_if path _
  type_under-Reports v (some _) = tt

  pub compared-Reports :
      (broken : Float → Bool) (o : Option Float) → Reports path (compared broken o path)
  compared-Reports broken none = tt
  compared-Reports broken (some y) = Reports-raise_if path _

  pub bound_under-Reports :
      (broken : Float → Bool) (o : Option Value) → Reports path (bound_under broken o path)
  bound_under-Reports broken none = tt
  bound_under-Reports broken (some v) = compared-Reports broken (as_number v)

  pub check_range-Reports : (x : Float) (fs : Fields) → Reports path (check_range x fs path)
  unfolding check_bound
  check_range-Reports x fs =
      Reports-seq path _ _ (bound_under-Reports _ (get "minimum" fs))
        (bound_under-Reports _ (get "maximum" fs))

  pub check_number-Reports : (v : Value) (fs : Fields) → Reports path (check_number v fs path)
  unfolding check_number
  check_number-Reports (int n) fs = check_range-Reports _ fs
  check_number-Reports (float x) fs = check_range-Reports x fs
  check_number-Reports _ fs = tt

  pub check_required_keys-Reports :
      (ks : Items) (payload : Fields) → Reports path (check_required_keys ks payload path)
  unfolding check_required_keys
  check_required_keys-Reports nil payload = tt
  check_required_keys-Reports (item (str key) ks) payload =
      Reports-seq path _ _ (Reports-raise_if-below path _ _)
        (check_required_keys-Reports ks payload)
  check_required_keys-Reports (item _ ks) payload = Reports-invalid-below path _

  pub required_under-Reports :
      (o : Option Value) (payload : Fields) → Reports path (required_under o payload path)
  required_under-Reports none payload = tt
  required_under-Reports (some (list ks)) payload = check_required_keys-Reports ks payload
  required_under-Reports (some _) payload = tt

  pub check_no_others-Reports :
      (ks : List String) (ps : Fields) → Reports path (check_no_others ks ps path)
  unfolding check_no_others
  check_no_others-Reports [] ps = tt
  check_no_others-Reports (k ∷ ks) ps =
      Reports-seq path _ _ (Reports-raise_if-below path _ _) (check_no_others-Reports ks ps)

  pub others_barred-Reports :
      (payload : Fields) (p a : Value) → Reports path (others_barred payload p a path)
  others_barred-Reports payload (dict ps) (bool false) = check_no_others-Reports (keys payload) ps
  others_barred-Reports payload (dict ps) _ = tt
  others_barred-Reports payload _ _ = tt
