-- ===== src/Sdk/Written.antt =====
-- What an effector that exits with 0 has written.
use fala.Prelude.{String, ◌≡◌, refl, ◌==◌, not, false, Option, none, some}
use fala.Python.Outcome.{Outcome, ok, raise, raise_if, invert, returned_value}
use fala.Python.Value.{Value, Fields, str, dict}
use fala.Python.Json.{Platform}
use fala.Protocol.Message.{
  Request, Result, Message, request, result, to_message, canonical, kind_of,
}
use fala.Protocol.Wire.{validated_wire, validate_message, parsed, parse, unexpected}
use fala.Protocol.WellFormed.{IsResult}
use fala.Protocol.RoundTrip.{IsMessage, validate-to_message}
use fala.Protocol.Exact.{validated_wire-IsMessage}
use fala.Protocol.Dialogue.{typed, speak}
use fala.Sdk.Effector.{
  Environment, Written, required_variable, load_manifest, write_result, exit_of,
  run_manifest_effector,
}

module _ ⦃platform : Platform⦄ where
  -- A document that the parent accepts as a result.
  abbrev pub IsAcceptedResult : Fields → Type 0
  IsAcceptedResult document =
      (s : Result) × IsResult s × (validated_wire document (some "result") ≡ ok (result s))

  -- The document is the wire form of what the result's own wire form is read as, once it has been spelled and
  -- parsed and has passed the validation.
  abbrev pub IsSpokenOf : Result → Fields → Type 0
  IsSpokenOf r document =
      (value : Fields) × (text : String) × (read : Fields) × (s : Result) × (to_message (result r)
        ≡ ok value)
      × (canonical value ≡ ok text)
      × (platform.loads text ≡ some (dict read))
      × (validated_wire read (some "result") ≡ ok (result s))
      × (to_message (result s) ≡ ok document)

  parsed-dict :
      (v : Option Value) (expected : Option String) (m : Message)
      → parsed expected v ≡ ok m
      → (fs : Fields) × (v ≡ some (dict fs)) × (validated_wire fs expected ≡ ok m)
  parsed-dict (some (dict fs)) expected m h = (fs, refl, h)
  parsed-dict none expected m h = absurd (cc h)
  parsed-dict (some _) expected m h = absurd (cc h)

  parsed-accepted :
      (v : Option Value) (expected : Option String) (m : Message)
      → parsed expected v ≡ ok m
      → (fs : Fields) × (validated_wire fs expected ≡ ok m)
  parsed-accepted (some (dict fs)) expected m h = (fs, h)
  parsed-accepted none expected m h = absurd (cc h)
  parsed-accepted (some _) expected m h = absurd (cc h)

  -- What `speak` returns of a typed message is a message that passes its own validation.
  speak-IsMessage :
      (m spoken : Message) (expected : Option String)
      → speak (typed m) expected ≡ ok spoken
      → IsMessage spoken × (unexpected expected (some (str (kind_of spoken))) ≡ false)
  unfolding speak parse
  speak-IsMessage m spoken expected h = invert (to_message m) _ h λ value _ h₁.
      invert (canonical value) _ h₁ λ t _ h₂. invert (parse t expected) _ h₂ λ read p h₃.
        invert (raise_if (not (kind_of read == kind_of m)) _) _ h₃ λ _ _ h₄.
          let (fs, q) = parsed-accepted (platform.loads t) expected read p in
          validated_wire-IsMessage fs expected spoken (rw (← h₄) q)

  -- The wire form of a message that passes its own validation is accepted, and read as that message.
  wire_form-accepted :
      (m : Message) (expected : Option String) {document : Fields}
      → IsMessage m
      → unexpected expected (some (str (kind_of m))) ≡ false
      → to_message m ≡ ok document
      → validated_wire document expected ≡ ok m
  unfolding validate_message
  wire_form-accepted m expected w e h = rw (e, h) at (validate-to_message m expected w e)

  spoken_result :
      (m : Message) {document : Fields}
      → IsMessage m
      → unexpected (some "result") (some (str (kind_of m))) ≡ false
      → to_message m ≡ ok document
      → IsAcceptedResult document
  spoken_result (request r) w e h = absurd (cc e)
  spoken_result (result r) w e h = (r, w, wire_form-accepted (result r) (some "result") w e h)

  spoken-IsSpokenOf :
      (r : Result) (spoken : Message) (document : Fields)
      → speak (typed (result r)) (some "result") ≡ ok spoken
      → to_message spoken ≡ ok document
      → IsSpokenOf r document
  unfolding speak parse
  spoken-IsSpokenOf r (result s) document h q = invert (to_message (result r)) _ h λ value a h₁.
      invert (canonical value) _ h₁ λ t b h₂. invert (parse t (some "result")) _ h₂ λ read c h₃.
        invert (raise_if (not (kind_of read == "result")) _) _ h₃ λ _ _ h₄.
          let same : read ≡ result s = returned_value h₄ in
          let (fs, d, e) =
            parsed-dict (platform.loads t) (some "result") (result s) (rw same at c) in
          (value, t, fs, s, a, b, d, e, q)
  spoken-IsSpokenOf r (request s) document h q =
      absurd (cc (speak-IsMessage (result r) (request s) (some "result") h).1)

  pub write_result-IsSpokenOf :
      (env : Environment) (r : Result) (w : Written)
      → write_result env (typed (result r)) ≡ ok w
      → IsSpokenOf r w.document
  unfolding write_result
  write_result-IsSpokenOf env r w h =
      invert (required_variable "FALA_EFFECTOR_OUTPUT_DIR" env) _ h λ directory _ h₁.
        invert (speak (typed (result r)) (some "result")) _ h₁ λ spoken p h₂.
          invert (to_message spoken) _ h₂ λ document q h₃.
            let e : w.document ≡ document = cc h₃ in rw e (spoken-IsSpokenOf r spoken document p q)

  pub write_result-accepted :
      (env : Environment) (r : Result) (w : Written)
      → write_result env (typed (result r)) ≡ ok w
      → IsAcceptedResult w.document
  unfolding write_result
  write_result-accepted env r w h =
      invert (required_variable "FALA_EFFECTOR_OUTPUT_DIR" env) _ h λ directory _ h₁.
        invert (speak (typed (result r)) (some "result")) _ h₁ λ spoken p h₂.
          invert (to_message spoken) _ h₂ λ document q h₃.
            let (formed, expected) = speak-IsMessage (result r) spoken (some "result") p in
            let e : w.document ≡ document = cc h₃ in rw e (spoken_result spoken formed expected q)

  exit_of-zero :
      (o : Outcome Written)
      → (exit_of o).status ≡ 0
      → (w : Written) × ((exit_of o).output ≡ some w) × (o ≡ ok w)
  exit_of-zero (ok w) h = (w, refl, refl)
  exit_of-zero (raise e) h = absurd (cc h)

  -- An effector whose process exits with 0 has read a manifest, its handler has returned a result, and
  -- the document that it has written is one that the parent accepts as a result.
  pub run_manifest_effector-accepted :
      (env : Environment) (read_text : String → Outcome String) (handler : Request → Outcome Result)
      → (run_manifest_effector env read_text handler).status ≡ 0
      → (manifest : Request) × (r : Result) × (w : Written) × (load_manifest env read_text
          ≡ ok manifest)
        × (handler manifest ≡ ok r)
        × ((run_manifest_effector env read_text handler).output ≡ some w)
        × IsAcceptedResult w.document
  unfolding run_manifest_effector
  run_manifest_effector-accepted env read_text handler h =
      let (w, left, done) = exit_of-zero _ h in
      invert (load_manifest env read_text) _ done λ manifest p h₁.
        invert (handler manifest) _ h₁
          λ r q h₂. (manifest, r, w, p, q, left, write_result-accepted env r w h₂)
