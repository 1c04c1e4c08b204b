-- ===== src/Conformance/Corpus.antt =====
-- python/fala/conformance.py: `run_conformance`. The cases are what the files of the corpus hold; the
-- files themselves are read by the caller.
use fala.Prelude.{
  String, ◌<>◌, Bool, true, false, not, ◌&&◌, none, some, List, [], ◌∷◌, ◌++◌, map, if◌then◌else◌,
  ◌==◌, is_in,
}
use fala.Python.Outcome.{Outcome, ok, raise, protocol_error, ◌>>=◌, ◌>>◌}
use fala.Python.Value.{Value}
use fala.Python.Text.{truthy, str_lt}
use fala.Python.Json.{Platform}
use fala.Protocol.Dialogue.{Spoken, text, typed}
use fala.Conformance.Payload.{check_payload}
use fala.Conformance.Results.{check_message, check_answer}

-- `ConformanceFailure`
pub record Failure : Type 0 where
  pub layer : String
  pub name : String
  pub code : String
  pub pointer : String
  pub detail : String

-- a case of negative.json
pub record EnvelopeCase : Type 0 where
  pub name : String
  pub code : String
  pub pointer : String
  pub message : Spoken

-- a case of dialogue.negative.json
pub record DialogueCase : Type 0 where
  pub name : String
  pub code : String
  pub pointer : String
  pub asked : Spoken
  pub answered : Spoken

-- a case of payload.cases.json; a code that the case leaves out is empty
pub record PayloadCase : Type 0 where
  pub name : String
  pub code : String
  pub pointer : String
  pub payload : Value
  pub schema : Value
  pub accept : Bool

pub record Corpus : Type 0 where
  pub valid_request : String
  pub valid_result : String
  pub envelope_negatives : List EnvelopeCase
  pub dialogue_negatives : List DialogueCase
  pub payload_cases : List PayloadCase

pub record Report : Type 0 where
  pub passed : Bool
  pub layers : List String
  pub failures : List Failure

abbrev differs : String → String → String → String → Bool
differs code pointer code' pointer' = not (code == code' && pointer == pointer')

abbrev pub accepted_negative : String → String → Failure
accepted_negative layer name = record {
  layer = layer;
  name = name;
  code = "expected_failure";
  pointer = "/";
  detail = "negative accepted";
}

abbrev pub unexpected_refusal : String → String → String → String → String → String → Failure
unexpected_refusal layer name code pointer wanted at = record {
  layer = layer;
  name = name;
  code = code;
  pointer = pointer;
  detail = "expected " <> (wanted <> (" at " <> at));
}

-- The `try` of the L0 and L1 loops: a negative case must raise its code at its pointer.
abbrev pub judge_negative {ℓ} :
    {A : Type ℓ} → String → String → String → String → Outcome A → Outcome (List Failure)
judge_negative layer name code pointer (ok _) = ok (accepted_negative layer name ∷ [])
judge_negative layer name code pointer (raise (protocol_error c p)) =
    ok
      (if differs c p code pointer then unexpected_refusal layer name c p code pointer ∷ [] else [])
judge_negative layer name code pointer (raise e) = raise e

-- The `try` of the L2 loop.
abbrev pub judge_payload : PayloadCase → Outcome (Unit {0}) → Outcome (List Failure)
judge_payload k (ok _) = ok (if k.accept then [] else accepted_negative "L2" k.name ∷ [])
judge_payload k (raise (protocol_error c p)) = ok (
    if k.accept
    then record {
      layer = "L2";
      name = k.name;
      code = c;
      pointer = p;
      detail = "valid case rejected";
    }
      ∷ []
    else if truthy k.code && differs c p k.code k.pointer
    then unexpected_refusal "L2" k.name c p k.code k.pointer ∷ []
    else [])
judge_payload k (raise e) = raise e

-- a loop that appends the failures of each case
abbrev pub gather {ℓ} :
    {A : Type ℓ} → (A → Outcome (List Failure)) → List A → Outcome (List Failure)
gather judge [] = ok []
gather judge (x ∷ xs) = do here ← judge x; there ← gather judge xs; ok (here ++ there)

module _ ⦃platform : Platform⦄ where
  -- the bodies of the L0 and the L1 loop
  abbrev pub judge_envelope : EnvelopeCase → Outcome (List Failure)
  judge_envelope k = judge_negative "L0" k.name k.code k.pointer (check_message k.message none)

  abbrev pub judge_dialogue : DialogueCase → Outcome (List Failure)
  judge_dialogue k = judge_negative "L1" k.name k.code k.pointer (check_answer k.asked k.answered)

module _ ⦃platform : Platform⦄ (corpus : Corpus) where
  unfoldable pub run_envelopes : Outcome (List Failure)
  run_envelopes = do
    _ ← check_message (text corpus.valid_request) (some "request")
    _ ← check_message (text corpus.valid_result) (some "result")
    gather judge_envelope corpus.envelope_negatives

  unfoldable pub run_dialogues : Outcome (List Failure)
  run_dialogues = do
    asked ← check_message (text corpus.valid_request) (some "request")
    answered ← check_message (text corpus.valid_result) (some "result")
    check_answer (typed asked) (typed answered)
    gather judge_dialogue corpus.dialogue_negatives

  unfoldable pub run_payloads : Outcome (List Failure)
  run_payloads =
      gather (λ k. judge_payload k (check_payload k.payload k.schema "/payload"))
        corpus.payload_cases

  -- `sorted(wanted)`, of a set
  abbrev insert_name : String → List String → List String
  insert_name x [] = x ∷ []
  insert_name x (y ∷ ys) =
      if x == y then y ∷ ys else if str_lt y x then y ∷ insert_name x ys else x ∷ y ∷ ys

  abbrev sorted_set : List String → List String
  sorted_set [] = []
  sorted_set (x ∷ xs) = insert_name x (sorted_set xs)

  abbrev pub when_wanted : String → List String → Outcome (List Failure) → Outcome (List Failure)
  when_wanted layer wanted run = if is_in layer wanted then run else ok []

  unfoldable pub run_conformance : List String → Outcome Report
  unfolding run_envelopes run_dialogues run_payloads
  run_conformance layers = do
    let wanted = map platform.upper layers
    envelopes ← when_wanted "L0" wanted run_envelopes
    dialogues ← when_wanted "L1" wanted run_dialogues
    payloads ← when_wanted "L2" wanted run_payloads
    let failures = envelopes ++ (dialogues ++ payloads)
    ok (record {
      passed = elim failures [ [] ↦ true | _ ∷ _ ↦ false ];
      layers = sorted_set wanted;
      failures = failures;
    })
