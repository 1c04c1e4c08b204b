-- ===== src/Host/Flights.antt =====
-- python/fala/host.py: what `record_in_process` promises of the lock, of the journal and of the callback.
use fala.Prelude.{
  String, ◌≡◌, refl, ◌∙◌, inl, inr, true, false, Option, none, List, [], ◌∷◌, ◌++◌, arith, eq_refl,
  is_in, Bool-cases,
}
use fala.Python.Outcome.{Error, Outcome, ok, raise, is_ok}
use fala.Python.Effect.{Action, pure, lift}
use fala.Python.Keeps.{Keeps, Keeps-chain}
use fala.Python.Value.{Value, Fields}
use fala.Python.Json.{Platform}
use fala.Lifecycle.Calls.{Call}
use fala.Host.Directory.{discard}
use fala.Host.Restored.{discard-absent}
use fala.Host.Tasks.{Task, record_json, exception_json, prepare}
use fala.Host.Recording.{
  Ledger, Native, send, start_call, finish_call, record_failure, record_output, settle,
  run_callback, record_callback, record_task, record_in_process,
}

-- A callback that gives every lock back, as `record_in_process` itself does.
abbrev pub IsFair : Action Ledger Value → Type 0
IsFair operation = (s : Ledger) → (operation s).1.busy ≡ s.busy

discard-cons : (x : String) (xs : List String) → is_in x xs ≡ false → discard x (x ∷ xs) ≡ xs
discard-cons x xs h = ground (arith, eq_refl x, discard-absent x xs)

abbrev locks : Ledger → List String
locks s = s.busy

send-Keeps : (native : Native) (c : Call) → Keeps locks (send native c)
unfolding send
send-Keeps native c s = ground arith

-- An accepted call is added to those that were committed.
pub send-ok :
    (native : Native) (c : Call) (s : Ledger)
    → native s.committed c ≡ none
    → send native c s ≡ (ok tt, record s { committed = s.committed ++ c ∷ [] })
unfolding send
send-ok native c s h = rw h

module _ ⦃platform : Platform⦄ where
  pub exception_json-ok : (e : Error) → (t : String) × (exception_json e ≡ ok t)
  unfolding exception_json
  exception_json-ok e = (_, refl)

module _ ⦃platform : Platform⦄ (native : Native) (task : Task) where
  pub record_failure-raises :
      (e : Error) (s : Ledger) → (record_failure native task e s).0 ≡ raise e
  unfolding record_failure
  record_failure-raises e s = rw (exception_json-ok e).1 refl

  record_failure-Keeps : (e : Error) → Keeps locks (record_failure native task e)
  unfolding record_failure
  record_failure-Keeps e s =
      let (t, p) = exception_json-ok e in
      rw p (send-Keeps native (finish_call task "failed" "{}" t) s)

  record_output-Keeps :
      (v : Value) (r : Outcome String) → Keeps locks (record_output native task v r)
  record_output-Keeps v (ok t) s =
      Keeps-chain locks (send native (finish_call task "succeeded" t "{}")) (λ _. pure v)
        (send-Keeps native (finish_call task "succeeded" t "{}")) (λ _ u. refl) s
  record_output-Keeps v (raise e) s =
      let (t, p) = exception_json-ok e in
      rw p (
        Keeps-chain locks (send native (finish_call task "failed" "{}" t)) (λ _. lift (raise e))
          (send-Keeps native (finish_call task "failed" "{}" t)) (λ _ u. refl) s)

  settle-Keeps : (r : Outcome Value) → Keeps locks (settle native task r)
  unfolding settle
  settle-Keeps (raise e) = record_failure-Keeps e
  settle-Keeps (ok v) = record_output-Keeps v (record_json v "operation result")

  record_callback-Keeps :
      (operation : Action Ledger Value)
      → IsFair operation
      → Keeps locks (record_callback native task operation)
  unfolding record_callback
  record_callback-Keeps operation fair =
      Keeps-chain locks (send native (start_call task)) (λ _. run_callback native task operation)
        (send-Keeps native (start_call task))
        (λ _ s. settle-Keeps (operation s).0 (operation s).1 ∙ fair s)

  record_task-IsFair :
      (operation : Action Ledger Value)
      → IsFair operation
      → IsFair (record_task native task operation)
  unfolding record_task
  record_task-IsFair operation fair s = elim (Bool-cases (is_in task.db s.busy)) [
    | inl taken ↦ rw taken refl
    | inr idle ↦
        rw (idle, record_callback-Keeps operation fair (record s { busy = task.db ∷ s.busy }))
          (discard-cons task.db s.busy idle)
  ]

  -- A callback whose database is in flight already is not run, and nothing is recorded.
  record_task_refused :
      (operation : Action Ledger Value) (s : Ledger)
      → is_in task.db s.busy ≡ true
      → ((record_task native task operation s).1 ≡ s)
        × (is_ok (record_task native task operation s).0 ≡ false)
  unfolding record_task
  record_task_refused operation s taken = rw taken (refl, refl)

module _ ⦃platform : Platform⦄ where
  -- If the callback gives back the locks that it takes, then so does `record_in_process`, however it
  -- ends; calls may therefore be nested.
  pub record_in_process-IsFair :
      (native : Native) (db : String) (run_id process_id process_type : Value)
      (inputs metadata : Option Fields) (started finished : String)
      (operation : Action Ledger Value)
      → IsFair operation
      → IsFair (
          record_in_process native db run_id process_id process_type inputs metadata started
            finished operation)
  unfolding record_in_process
  record_in_process-IsFair native db run_id process_id process_type inputs metadata started finished
        operation fair =
      Keeps-chain locks
        (lift (prepare db run_id process_id process_type inputs metadata started finished)) _
        (λ s. refl) (λ task. record_task-IsFair native task operation fair)
