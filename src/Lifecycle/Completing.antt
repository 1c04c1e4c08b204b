-- ===== src/Lifecycle/Completing.antt =====
-- python/fala/journal.py: what `complete_waiting_process` sends for its arguments, and what it reads of a reply.
use fala.Prelude.{String, ◌≡◌, refl, sym, ap, true, Option, none, some, is_some, arith}
use mathlib.Core.Path.{subst}
use fala.Python.Outcome.{Outcome, ok, raise, invert, builtin, type_error, value_error}
use fala.Python.Value.{Value, Fields, bool, str, dict, end, field, get}
use fala.Python.Json.{Platform, spaced, dumps}
use fala.Lifecycle.Calls.{
  Call, required, status, encoded, blocker, terminal_run_statuses, terminal_process_statuses,
  terminal_blocker_statuses, complete_waiting_process, spelled, fields_or, recordable,
}
use fala.Lifecycle.Guards.{sent, status_of_strip}
use fala.Prelude.{Bool}
use fala.Python.Outcome.{key_error, returned_value}
use fala.Sdk.Inputs.{value_truthy}
use fala.Lifecycle.Reply.{text_at, truth_at, result_of, LifecycleResult}

-- Nothing, or the stripped text of a value.
abbrev pub stripped_or_empty : ⦃platform : Platform⦄ → Option Value → String
stripped_or_empty none = ""
stripped_or_empty ⦃platform⦄ (some v) = platform.strip (spelled v)

-- The call carries the arguments of a completion: each stripped text under its own key, whether a blocker
-- was given, and the JSON text of the output, or of `{"completed": true}` where there is none.
abbrev pub IsCompletionOf :
    ⦃platform : Platform⦄ (db now : String) (run_id process_id : Value) (blocker_id : Option Value)
    (output : Option Fields) (process_status blocker_status run_status : Value)
    → Call
    → Type 0
IsCompletionOf db now run_id process_id blocker_id output process_status blocker_status run_status
      call =
    (call.operation ≡ "complete_waiting_process")
    × (get "db_path" call.request ≡ some (str db))
    × (get "now" call.request ≡ some (str now))
    × (get "run_id" call.request ≡ some (str (stripped_or_empty (some run_id))))
    × (get "process_id" call.request ≡ some (str (stripped_or_empty (some process_id))))
    × (get "process_status" call.request ≡ some (str (stripped_or_empty (some process_status))))
    × (get "run_status" call.request ≡ some (str (stripped_or_empty (some run_status))))
    × (get "blocker_status" call.request ≡ some (str (stripped_or_empty (some blocker_status))))
    × (get "blocker_id" call.request ≡ some (str (stripped_or_empty blocker_id)))
    × (get "has_blocker" call.request ≡ some (bool (is_some blocker_id)))
    × ((text : String) × (get "output_json" call.request ≡ some (str text))
        × (dumps spaced (dict (fields_or (field "completed" (bool true) end) output)) ≡ ok text))

module _ ⦃platform : Platform⦄ where
  required_of_strip :
      (v : Value) (label s : String) → required v label ≡ ok s → s ≡ platform.strip (spelled v)
  unfolding required
  required_of_strip v label s h = ground (arith, h)

  blocker_of_strip : (v : Option Value) (s : String) → blocker v ≡ ok s → s ≡ stripped_or_empty v
  blocker_of_strip none s h = cc h
  blocker_of_strip (some v) s h = required_of_strip v "blocker_id" s h

  recordable_lem :
      (label : String) (r : Outcome String) (t : String) → recordable label r ≡ ok t → r ≡ ok t
  recordable_lem label (ok s) t h = h
  recordable_lem label (raise (builtin type_error m)) t h = absurd (cc h)
  recordable_lem label (raise (builtin value_error m)) t h = absurd (cc h)
  recordable_lem label (raise e) t h = ground (arith, h)

  encoded_lem :
      (default : Fields) (value : Option Fields) (label t : String)
      → encoded default value label ≡ ok t
      → dumps spaced (dict (fields_or default value)) ≡ ok t
  unfolding encoded
  encoded_lem default value label t h = recordable_lem label _ t h

  pub complete_waiting_process-IsCompletionOf :
      (db now : String) (run_id process_id : Value) (blocker_id : Option Value)
      (output : Option Fields) (process_status blocker_status run_status : Value) (call : Call)
      → complete_waiting_process db now run_id process_id blocker_id output process_status
          blocker_status run_status
        ≡ ok call
      → IsCompletionOf db now run_id process_id blocker_id output process_status blocker_status
          run_status call
  unfolding complete_waiting_process
  complete_waiting_process-IsCompletionOf db now run_id process_id blocker_id output process_status
        blocker_status run_status call h =
      invert (required run_id "run_id") _ h λ rid a h₁.
        invert (required process_id "process_id") _ h₁ λ pid b h₂.
          invert (status process_status "process_status" terminal_process_statuses) _ h₂ λ p c h₃.
            invert (status run_status "run_status" terminal_run_statuses) _ h₃ λ r d h₄.
              invert (status blocker_status "blocker_status" terminal_blocker_statuses) _ h₄
                λ s e h₅. invert (blocker blocker_id) _ h₅ λ bid f h₆.
                  invert (encoded _ output "output") _ h₆ λ t g h₇.
                    let text = λ (x : String). some (str x) in
                    sent
                      (IsCompletionOf db now run_id process_id blocker_id output process_status
                        blocker_status run_status)
                      _ call h₇
                      (
                        refl,
                        refl,
                        refl,
                        ap text (required_of_strip run_id "run_id" rid a),
                        ap text (required_of_strip process_id "process_id" pid b),
                        ap text (
                            status_of_strip process_status "process_status"
                              terminal_process_statuses p c),
                        ap text (status_of_strip run_status "run_status" terminal_run_statuses r d),
                        ap text (
                            status_of_strip blocker_status "blocker_status"
                              terminal_blocker_statuses s e),
                        ap text (blocker_of_strip blocker_id bid f),
                        refl,
                        (t, refl, encoded_lem _ output "output" t g),
                      )

module _ ⦃platform : Platform⦄ where
  text_at_lem :
      (key : String) (fs : Fields) (s : String)
      → text_at key fs ≡ ok s
      → (v : Value) × (get key fs ≡ some v) × (s ≡ spelled v)
  text_at_lem key fs s = found (get key fs) refl
    where
      found :
          (o : Option Value)
          → get key fs ≡ o
          → Path
              (Outcome String)
              (elim o [ none ↦ raise (builtin key_error "") | some v ↦ ok (spelled v) ])
              (ok s)
          → (v : Value) × (get key fs ≡ some v) × (s ≡ spelled v)
      found none e h = absurd (cc h)
      found (some v) e h = (v, e, sym (returned_value h))

  truth_at_lem :
      (key : String) (fs : Fields) (b : Bool)
      → truth_at key fs ≡ ok b
      → (v : Value) × (get key fs ≡ some v) × (b ≡ value_truthy v)
  truth_at_lem key fs b = found (get key fs) refl
    where
      found :
          (o : Option Value)
          → get key fs ≡ o
          → Path
              (Outcome Bool)
              (elim o [ none ↦ raise (builtin key_error "") | some v ↦ ok (value_truthy v) ])
              (ok b)
          → (v : Value) × (get key fs ≡ some v) × (b ≡ value_truthy v)
      found none e h = absurd (cc h)
      found (some v) e h = (v, e, sym (returned_value h))

  -- Each part of the result is what the reply has under its own key.
  abbrev pub IsReadFrom : Fields → LifecycleResult → Type 0
  IsReadFrom reply result =
      ((v : Value) × (get "run_id" reply ≡ some v) × (result.run_id ≡ spelled v))
      × ((v : Value) × (get "process_id" reply ≡ some v) × (result.process_id ≡ spelled v))
      × ((v : Value) × (get "changed" reply ≡ some v) × (result.changed ≡ value_truthy v))
      × ((v : Value) × (get "process_status" reply ≡ some v) × (result.process_status ≡ spelled v))
      × ((v : Value) × (get "run_status" reply ≡ some v) × (result.run_status ≡ spelled v))

  pub result_of-IsReadFrom :
      (reply : Fields) (result : LifecycleResult)
      → result_of reply ≡ ok result
      → IsReadFrom reply result
  unfolding result_of
  result_of-IsReadFrom reply result h = invert (text_at "run_id" reply) _ h λ rid a h.
      invert (text_at "process_id" reply) _ h λ pid b h.
        invert (truth_at "changed" reply) _ h λ changed c h.
          invert (text_at "process_status" reply) _ h λ p d h.
            invert (text_at "run_status" reply) _ h λ r e h.
              subst (IsReadFrom reply) (returned_value h) (
                text_at_lem "run_id" reply rid a,
                text_at_lem "process_id" reply pid b,
                truth_at_lem "changed" reply changed c,
                text_at_lem "process_status" reply p d,
                text_at_lem "run_status" reply r e,
              )
