-- ===== src/Python/Tests.antt =====
-- A platform to run the program on, and the spelling of one value.
use fala.Prelude.{◌≡◌, refl, none}
use fala.Prelude.Int.{pos}
use fala.Python.Outcome.{ok}
use fala.Python.Value.{null, int, str, list, dict, nil, item, end, field}
use fala.Python.Text.{decimal}
use fala.Python.Json.{Platform, compact, escape, dumps}

-- The digest of a text is the text, and there are no fractions.
instance abbrev pub echo_platform : Platform
echo_platform = record {
  sha256_hex = λ s. s;
  float_repr = λ x. "0.0";
  int_of_text = λ s. none;
  strip = λ s. s;
  upper = λ s. s;
  text_of = λ v. "?";
  loads = λ s. none;
}

dumps_test :
    dumps compact
      (dict (field "b" (list (item (int (pos 7)) (item null nil))) (field "a" (str "x\"y") end)))
    ≡ ok "{\"a\":\"x\\\"y\",\"b\":[7,null]}"
unfolding dumps escape decimal
dumps_test = refl
