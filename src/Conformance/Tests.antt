-- ===== src/Conformance/Tests.antt =====
-- A schema with a nested combinator, a payload that meets it and one that does not, and a corpus of
-- one negative envelope. The properties of the conformance harness are applied to them.
use fala.Prelude.{◌≡◌, refl, ◌↔◌, true, false, some}
use fala.Prelude.Int.{pos}
use fala.Python.Outcome.{is_ok, ok, raise, protocol_error}
use fala.Python.Value.{
  Value, null, bool, int, float, str, list, dict, nil, item, end, field, value_eq, found_eq,
}
use fala.Python.Number.{nan, number_eq}
use fala.Python.Text.{replace_char}
use fala.Python.Tests.{echo_platform}
use fala.Protocol.Message.{request, result}
use fala.Protocol.Dialogue.{typed, wire}
use fala.Protocol.Answers.{Answers}
use fala.Protocol.Tests.{asked, answered, asked-IsRequest, answered-IsResult}
use fala.Conformance.Keywords.{
  json_pointer_token, check_keywords, check_const, check_enum, check_type, check_string,
  check_number, check_required, check_additional, type_matches,
}
use fala.Conformance.Payload.{
  check_array, check_object, check_combinator, check_node, check_payload,
}
use fala.Conformance.Termination.{check_payload-eq, check-enough}
use fala.Conformance.Solved.{IsSolution, check_payload-solves}
use mathlib.Core.Path.{fun_ext, subst}
use fala.Conformance.Keywords.{Checker}
use fala.Conformance.Payload.{size, check}
use fala.Python.Outcome.{out_of_fuel}
use fala.Prelude.{◌+◌, sym, arith}
use fala.Conformance.Verdicts.{verdict}
use fala.Conformance.Meaning.{meets_schema}
use fala.Conformance.Complete.{check_payload-meets}
use fala.Conformance.Reports.{Reports}
use fala.Conformance.Pointers.{check_payload-Reports}
use fala.Conformance.Results.{check_result}
use fala.Conformance.Corpus.{EnvelopeCase}
use fala.Conformance.Harness.{check_result_iff}

-- {"type": "object", "required": ["text"], "properties": {"text": {"oneOf": [{"type": "string"}, {"const": 1}]}}}
abbrev text_schema : Value
text_schema = dict (
    field "type" (str "object") (
      field "required" (list (item (str "text") nil)) (
        field "properties"
          (dict (
            field "text"
              (dict (
                field "oneOf"
                  (list (
                    item (dict (field "type" (str "string") end))
                      (item (dict (field "const" (int (pos 1)) end)) nil)))
                  end))
              end))
          end)))

abbrev text_payload : Value
text_payload = dict (field "text" (str "hi") end)

-- neither a text nor the number one
abbrev null_payload : Value
null_payload = dict (field "text" null end)

text_accepted : check_payload text_payload text_schema "/payload" ≡ ok tt
unfolding check_payload check_keywords check_const check_enum check_type check_string check_number
    check_array check_object check_combinator check_required check_additional json_pointer_token
    replace_char type_matches value_eq number_eq
text_accepted = refl

null_refused :
    check_payload null_payload text_schema "/payload"
    ≡ raise (protocol_error "fep.payload_invalid" "/payload/text")
unfolding check_payload check_keywords check_const check_enum check_type check_string check_number
    check_array check_object check_combinator check_required check_additional json_pointer_token
    replace_char type_matches value_eq number_eq
null_refused = refl

-- `True == 1`, so a boolean meets the constant one.
true_is_one : check_payload (bool true) (dict (field "const" (int (pos 1)) end)) "/payload" ≡ ok tt
unfolding check_payload check_keywords check_const check_enum check_type check_string check_number
    check_array check_object check_combinator check_required check_additional json_pointer_token
    replace_char type_matches value_eq number_eq
true_is_one = refl

-- A `type` that is no text and no list restricts nothing.
number_as_type_ignored :
    check_payload null (dict (field "type" (int (pos 5)) end)) "/payload" ≡ ok tt
unfolding check_payload check_keywords check_const check_enum check_type check_string check_number
    check_array check_object check_combinator check_required check_additional json_pointer_token
    replace_char type_matches value_eq number_eq
number_as_type_ignored = refl

unknown_keyword_refused :
    check_payload null (dict (field "a/b" null (field "$id" null end))) "/payload"
    ≡ raise (protocol_error "fep.payload_invalid" "/payload/$id")
unfolding check_payload check_keywords check_const check_enum check_type check_string check_number
    check_array check_object check_combinator check_required check_additional json_pointer_token
    replace_char type_matches value_eq number_eq
unknown_keyword_refused = refl

-- NaN is among the options of an enum by its identity, and is not equal to a const.
abbrev nan_value : Value
nan_value = float nan

nan_allowed : found_eq nan_value nan_value ≡ true
unfolding value_eq
nan_allowed = refl

nan_differs : value_eq nan_value nan_value ≡ false
unfolding value_eq number_eq
nan_differs = refl

-- a checker that takes more fuel than it needs
abbrev roomy : Checker
roomy payload schema path = check (3 + size schema) payload schema path

roomy-IsSolution : IsSolution roomy
roomy-IsSolution payload schema path =
    subst (λ q. q payload schema path ≡ check_node q payload schema path) (sym enough)
      (check_payload-eq payload schema path)
  where
    enough : roomy ≡ check_payload
    enough =
        fun_ext (λ p. fun_ext (λ s. fun_ext (λ t. check-enough (3 + size s) p s t (omega arith))))

check_payload-solves_example :
    (roomy null_payload text_schema "/payload" ≡ check_payload null_payload text_schema "/payload")
    × (check (20 + size text_schema) null_payload text_schema "/payload"
        ≡ check_payload null_payload text_schema "/payload")
    × (check_payload null_payload text_schema "/payload"
        ≡ check_node check_payload null_payload text_schema "/payload")
    × (¬ (check_payload null_payload text_schema "/payload" ≡ raise out_of_fuel))
check_payload-solves_example =
    check_payload-solves roomy (20 + size text_schema) roomy-IsSolution null_payload text_schema
      "/payload" (omega arith)

check_payload-Reports_example :
    Reports "/payload" (check_payload null_payload text_schema "/payload")
check_payload-Reports_example = check_payload-Reports null_payload text_schema "/payload"

check_result_iff_example :
    (check_result (typed (request asked)) (typed (result answered)) (some text_schema)
      ≡ ok answered)
    ↔ (Answers asked answered
        × (check_payload (dict answered.payload) text_schema "/payload" ≡ ok tt))
check_result_iff_example =
    check_result_iff asked answered text_schema asked-IsRequest answered-IsResult

abbrev no_protocol : EnvelopeCase
no_protocol = record {
  name = "no protocol";
  code = "fep.unknown_protocol";
  pointer = "/protocol";
  message = wire end;
}

check_payload-meets_example :
    is_ok (check_payload text_payload text_schema "/payload")
    ≡ meets_schema (λ v s. verdict (check_payload v s "")) text_payload text_schema
check_payload-meets_example = check_payload-meets text_payload text_schema "/payload"
