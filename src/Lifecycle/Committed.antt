-- ===== src/Lifecycle/Committed.antt =====
-- python/fala/journal.py: how an operation on the journal ends.
use fala.Lifecycle.Guards.{IsCompletingCall, complete_waiting_process-IsCompletingCall}
use fala.Host.Tasks.{error_text}
use fala.Python.Keeps.{chain-ok, chain-returned, Keeps-chain, Keeps}
use fala.Python.Effect.{◌>>=◌, lift}
use fala.Python.Value.{null, str, float, int, bool, Fields, list, dict, Value}
use fala.Host.Answers.{with_sqlite_cwd-Keeps, settings}
use fala.Lifecycle.Calls.{complete_waiting_process, Call}
use fala.Python.Text.{contains}
use fala.Host.Directory.{enter, Process, with_sqlite_cwd}
use fala.Lifecycle.Native.{call_engine, complete, native_call, Engine}
use fala.Python.Json.{spaced, dumps, Platform}
use fala.Python.Outcome.{
  returned_value, raise, ok, Outcome, runtime_error, value_error, type_error, builtin, Error,
}
use fala.Lifecycle.Reply.{result_of, result_from, LifecycleResult, translated, reworded}
use mathlib.Core.Path.{subst}
use fala.Prelude.{
  ◌∙◌, ap, sym, Option, inl, inr, ◌⊎◌, refl, ◌||◌, if◌then◌else◌, false, true, ◌≡◌, Bool, String,
  none,
}
use fala.Lifecycle.Completing.{
  IsCompletionOf, complete_waiting_process-IsCompletionOf, IsReadFrom, result_of-IsReadFrom,
}

-- The classes of the exceptions that the journal documents.
abbrev pub is_journal_error : Error → Bool
is_journal_error (builtin type_error _) = true
is_journal_error (builtin value_error _) = true
is_journal_error (builtin runtime_error _) = true
is_journal_error _ = false

either :
    (b : Bool) (x y : Error)
    → is_journal_error x ≡ true
    → is_journal_error y ≡ true
    → is_journal_error (if b then x else y) ≡ true
either true x y h k = h
either false x y h k = k

reworded-is_journal_error :
    (operation message : String) → is_journal_error (reworded operation message) ≡ true
unfolding reworded
reworded-is_journal_error operation message =
    either
      (contains message "incompatible"
        || contains message "schema-v6"
        || contains message "initialization incomplete")
      _ _ refl
      (either (contains message "fala journal:" || contains message "fala.record_in_process:") _ _
        (either (contains message "is not JSON-recordable") _ _ refl refl) refl)

module _ ⦃platform : Platform⦄ (engine : Engine) where
  -- A reply of the engine to the text of the request, or an exception of a documented class.
  abbrev pub IsServed : Call → Process → Outcome Value → Type 0
  IsServed call p r =
      ((out : Value) × (payload : String) × (r ≡ ok out)
        × (dumps spaced (dict call.request) ≡ ok payload)
        × ((engine.run call.operation payload (enter engine.place none p)).0 ≡ ok out))
      ⊎ ((e : Error) × (r ≡ raise e) × (is_journal_error e ≡ true))

  translated-IsServed :
      (call : Call) (p : Process) (encoded : Outcome String)
      → dumps spaced (dict call.request) ≡ encoded
      → IsServed call p (
          translated call.operation
            ((lift encoded >>= engine.run call.operation) (enter engine.place none p)).0)
  translated-IsServed call p (raise e) h =
      inr (_, refl, reworded-is_journal_error call.operation (error_text e))
  translated-IsServed call p (ok payload) h =
      served ((engine.run call.operation payload) (enter engine.place none p)).0 refl
    where
      served :
          (r : Outcome Value)
          → (engine.run call.operation payload (enter engine.place none p)).0 ≡ r
          → IsServed call p (translated call.operation r)
      served (ok out) k = inl (out, payload, refl, h, k)
      served (raise e) k = inr (_, refl, reworded-is_journal_error call.operation (error_text e))

  entered-IsServed :
      (call : Call) (p : Process)
      → IsServed call p (with_sqlite_cwd engine.place none (call_engine engine call) p).0
  unfolding with_sqlite_cwd call_engine
  entered-IsServed call p = translated-IsServed call p (dumps spaced (dict call.request)) refl

  native_call-Keeps : (call : Call) → Keeps settings (native_call engine call)
  unfolding native_call
  native_call-Keeps call =
      Keeps-chain settings (lift engine.ready)
        (λ done. with_sqlite_cwd engine.place none (call_engine engine call)) (λ p. refl)
        (λ done. with_sqlite_cwd-Keeps engine.place none (call_engine engine call))

  -- Once the native libraries are there, and whatever the native journal does: a call gives the value that
  -- the journal returned for the text of its request, or raises a TypeError, a ValueError or a RuntimeError;
  -- and the working directory and the two variables are what they were.
  pub native_call-IsServed :
      (call : Call) (p : Process)
      → engine.ready ≡ ok tt
      → IsServed call p (native_call engine call p).0
        × (settings (native_call engine call p).1 ≡ settings p)
  unfolding native_call
  native_call-IsServed call p ready =
      let entered =
        λ (done : Unit {0}). with_sqlite_cwd engine.place none (call_engine engine call) in
      (
        subst (λ (x : Outcome Value × Process). IsServed call p x.0)
            (sym (chain-ok (lift engine.ready) entered p tt p (ap (λ r. (r, p)) ready)))
            (entered-IsServed call p),
        native_call-Keeps call p,
      )

  -- What is known of a completion that returned: the call was checked, the journal replied to the text of its
  -- request with an object, and the result is read from that.
  abbrev pub IsCompleted : Outcome Call → Process → LifecycleResult → Type 0
  IsCompleted checked p result =
      (call : Call) × (checked ≡ ok call)
      × (reply : Fields) × (payload : String) × (dumps spaced (dict call.request) ≡ ok payload)
      × ((engine.run call.operation payload (enter engine.place none p)).0 ≡ ok (dict reply))
      × (result_of reply ≡ ok result)

  result_from-dict :
      (out : Value) (result : LifecycleResult)
      → result_from out ≡ ok result
      → (reply : Fields) × (out ≡ dict reply) × (result_of reply ≡ ok result)
  result_from-dict (dict reply) result h = (reply, refl, h)
  result_from-dict null result h = absurd (cc h)
  result_from-dict (bool b) result h = absurd (cc h)
  result_from-dict (int n) result h = absurd (cc h)
  result_from-dict (float x) result h = absurd (cc h)
  result_from-dict (str s) result h = absurd (cc h)
  result_from-dict (list vs) result h = absurd (cc h)

  complete-IsCompleted :
      (checked : Outcome Call) (p t : Process) (result : LifecycleResult)
      → engine.ready ≡ ok tt
      → complete engine checked p ≡ (ok result, t)
      → IsCompleted checked p result
  unfolding complete
  complete-IsCompleted checked p t result ready h =
      let (call, s, e, r₁) =
        chain-returned (lift checked)
          (λ call. native_call engine call >>= λ out. lift (result_from out)) p result t h in
      let (out, u, f, r₂) =
        chain-returned (native_call engine call) (λ out. lift (result_from out)) s result t r₁ in
      let same : s ≡ p = sym (ap (λ (x : Outcome Call × Process). x.1) e) in
      let called : (native_call engine call p).0 ≡ ok out =
        ap (λ q. (native_call engine call q).0) (sym same)
        ∙ ap (λ (x : Outcome Value × Process). x.0) f in
      let (reply, is_reply, read) =
        result_from-dict out result (ap (λ (x : Outcome LifecycleResult × Process). x.0) r₂) in
      elim (native_call-IsServed call p ready).0 [
        | inr (error, raised, _) ↦ absurd (cc (sym raised ∙ called))
        | inl (v, payload, returned, sent, replied) ↦
            let value : v ≡ dict reply = returned_value (sym returned ∙ called) ∙ is_reply in
            (
              call,
              ap (λ (x : Outcome Call × Process). x.0) e,
              reply,
              payload,
              sent,
              replied ∙ ap ok value,
              read,
            )
      ]

  -- If `complete_waiting_process` returns, then the call that it made carries its arguments: each stripped text
  -- under its own key, whether a blocker was given, and the text of the output or of `{"completed": true}`.
  -- This call names a run and a process, has terminal statuses, and names a blocker exactly when it says
  -- that there is one. The native journal replied to the text of this call's request with an object, and
  -- each part of the result is the text, or the truth value, of what that object has under its own key.
  pub complete_waiting_process-returns :
      (db now : String) (run_id process_id : Value) (blocker_id : Option Value)
      (output : Option Fields) (process_status blocker_status run_status : Value) (p t : Process)
      (result : LifecycleResult)
      → engine.ready ≡ ok tt
      → complete engine
          (complete_waiting_process db now run_id process_id blocker_id output process_status
            blocker_status run_status)
          p
        ≡ (ok result, t)
      → (call : Call) × IsCompletionOf db now run_id process_id blocker_id output process_status
          blocker_status run_status call
        × IsCompletingCall call
        × (reply : Fields) × (payload : String) × (dumps spaced (dict call.request) ≡ ok payload)
        × ((engine.run call.operation payload (enter engine.place none p)).0 ≡ ok (dict reply))
        × IsReadFrom reply result
  complete_waiting_process-returns db now run_id process_id blocker_id output process_status
        blocker_status run_status p t result ready h =
      let (call, checked, reply, payload, sent, replied, read) =
        complete-IsCompleted _ p t result ready h in
      (
        call,
        complete_waiting_process-IsCompletionOf db now run_id process_id blocker_id output
            process_status blocker_status run_status call checked,
        complete_waiting_process-IsCompletingCall db now run_id process_id blocker_id output
            process_status blocker_status run_status call checked,
        reply,
        payload,
        sent,
        replied,
        result_of-IsReadFrom reply result read,
      )
