-- ===== src/Conformance/Harness.antt =====
-- What the checkers of whole answers establish, and what a report without failures says.
use fala.Prelude.{◌≡◌, refl, ◌↔◌, String, Each, none, some, List, [], ◌∷◌, ◌++◌, arith, eq_iff}
use fala.Python.Outcome.{Outcome, ok, raise, protocol_error, builtin, out_of_fuel, invert}
use fala.Python.Value.{Value, dict}
use fala.Python.Json.{Platform}
use fala.Protocol.Message.{Request, Result, request, result}
use fala.Protocol.WellFormed.{IsRequest, IsResult}
use fala.Protocol.RoundTrip.{validate-to_message}
use fala.Protocol.Dialogue.{typed, validate, assert_answers}
use fala.Protocol.Answers.{Answers, assert_answers_iff}
use fala.Conformance.Payload.{check_payload}
use fala.Conformance.Results.{check_message, check_result}
use fala.Conformance.Corpus.{judge_envelope, Failure, EnvelopeCase, judge_negative, gather}

module _ ⦃platform : Platform⦄ where
  read_result :
      (s : Result) → IsResult s → validate (typed (result s)) (some "result") ≡ ok (result s)
  unfolding validate
  read_result s u = validate-to_message (result s) (some "result") u refl

  check_result_sound :
      (r : Request) (s : Result) (schema : Value)
      → IsRequest r
      → IsResult s
      → check_result (typed (request r)) (typed (result s)) (some schema) ≡ ok s
      → Answers r s × (check_payload (dict s.payload) schema "/payload" ≡ ok tt)
  unfolding check_result
  check_result_sound r s schema w u h =
      invert (assert_answers (typed (request r)) (typed (result s))) _ (rw (read_result s u) at h)
        λ _ p h₁.
          invert (check_payload (dict s.payload) schema "/payload") _ h₁
            λ _ q _. ((assert_answers_iff r s w u).0 p, q)

  check_result_complete :
      (r : Request) (s : Result) (schema : Value)
      → IsRequest r
      → IsResult s
      → Answers r s × (check_payload (dict s.payload) schema "/payload" ≡ ok tt)
      → check_result (typed (request r)) (typed (result s)) (some schema) ≡ ok s
  unfolding check_result
  check_result_complete r s schema w u (a, q) =
      rw (read_result s u, (assert_answers_iff r s w u).1 a, q)

  -- For well-formed messages, a result passes the check against a schema exactly when it answers the
  -- request and its payload meets the schema.
  pub check_result_iff :
      (r : Request) (s : Result) (schema : Value)
      → IsRequest r
      → IsResult s
      → (check_result (typed (request r)) (typed (result s)) (some schema) ≡ ok s)
        ↔ (Answers r s × (check_payload (dict s.payload) schema "/payload" ≡ ok tt))
  check_result_iff r s schema w u =
      (check_result_sound r s schema w u, check_result_complete r s schema w u)

append-nil_parts {ℓ} : {A : Type ℓ} (xs ys : List A) → xs ++ ys ≡ [] → (xs ≡ []) × (ys ≡ [])
append-nil_parts [] ys h = (refl, h)
append-nil_parts (x ∷ xs) ys h = absurd (cc h)

gather-nil_iff {ℓ} :
    {A : Type ℓ} (judge : A → Outcome (List Failure)) (xs : List A)
    → (gather judge xs ≡ ok []) ↔ Each (λ x. judge x ≡ ok []) xs
gather-nil_iff judge [] = (λ h. tt, λ h. refl)
gather-nil_iff judge (x ∷ xs) = (
  (λ h. invert (judge x) _ h λ here p h₁. invert (gather judge xs) _ h₁ λ there q h₂.
      let (a, b) = append-nil_parts here there (cc h₂) in
      (rw (← a) p, (gather-nil_iff judge xs).0 (rw (← b) q))),
  (λ (p, rest). rw (p, (gather-nil_iff judge xs).1 rest)),
)

judge_negative-nil {ℓ} :
    {A : Type ℓ} (layer name code pointer : String) (r : Outcome A)
    → (judge_negative layer name code pointer r ≡ ok []) ↔ (r ≡ raise (protocol_error code pointer))
judge_negative-nil layer name code pointer (ok _) = ((λ h. absurd (cc h)), (λ h. absurd (cc h)))
judge_negative-nil layer name code pointer (raise (protocol_error c p)) = (
  (λ h. ground (arith, eq_iff c code, eq_iff p pointer)),
  (λ h. ground (arith, eq_iff c code, eq_iff p pointer)),
)
judge_negative-nil layer name code pointer (raise (builtin k m)) =
    ((λ h. absurd (cc h)), (λ h. absurd (cc h)))
judge_negative-nil layer name code pointer (raise out_of_fuel) =
    ((λ h. absurd (cc h)), (λ h. absurd (cc h)))

-- A case of the corpus is refused with the code and at the pointer that it names.
abbrev pub RefusedAs {ℓ} : {A : Type ℓ} → String → String → Outcome A → Type ℓ
RefusedAs code pointer r = r ≡ raise (protocol_error code pointer)

Each-map {ℓ} :
    {A : Type ℓ} {P Q : A → Type 0} → ((x : A) → P x → Q x) → (xs : List A) → Each P xs → Each Q xs
Each-map f [] h = tt
Each-map f (x ∷ xs) (p, rest) = (f x p, Each-map f xs rest)

module _ ⦃platform : Platform⦄ where
  -- The loop over the negative envelopes reports nothing exactly when each of them is refused with
  -- the code and at the pointer that its case names.
  pub envelopes_report_nothing :
      (cases : List EnvelopeCase)
      → (gather judge_envelope cases ≡ ok [])
        ↔ Each (λ k. RefusedAs k.code k.pointer (check_message k.message none)) cases
  envelopes_report_nothing cases = (
    (λ h.
        Each-map
          (λ k. (judge_negative-nil "L0" k.name k.code k.pointer (check_message k.message none)).0)
          cases ((gather-nil_iff judge_envelope cases).0 h)),
    (λ h. (gather-nil_iff judge_envelope cases).1 (
        Each-map
          (λ k. (judge_negative-nil "L0" k.name k.code k.pointer (check_message k.message none)).1)
          cases h)),
  )
