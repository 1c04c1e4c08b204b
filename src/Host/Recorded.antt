-- ===== src/Host/Recorded.antt =====
-- python/fala/host.py: what the journal holds once `record_in_process` has ended.
use mathlib.Core.List.{append-nil}
use fala.Prelude.{
  String, ◌≡◌, refl, sym, ◌∙◌, ap, inl, inr, false, none, some, List, [], ◌∷◌, ◌++◌, arith, is_in,
  Bool-cases, Option-cases,
}
use fala.Python.Outcome.{Error, Outcome, ok, raise}
use fala.Python.Effect.{Action, pure, lift, ◌>>◌}
use fala.Python.Value.{Value}
use fala.Python.Json.{Platform}
use fala.Lifecycle.Calls.{Call}
use fala.Python.Keeps.{chain-returned, chain-ok}
use fala.Host.Tasks.{Task, record_json, exception_json}
use fala.Host.Recording.{
  Ledger, Native, ignoring, send, start_call, finish_call, record_failure, record_output, settle,
  run_callback, record_callback, record_task,
}
use fala.Host.Flights.{exception_json-ok, record_failure-raises, send-ok}

-- The ledger that the callback starts from: its database is in flight, and its start is committed.
abbrev started : Task → Ledger → Ledger
started task s = record s { committed = s.committed ++ start_call task ∷ [] }

abbrev pub in_flight : Task → Ledger → Ledger
in_flight task s = started task (record s { busy = task.db ∷ s.busy })

send-returned :
    (native : Native) (c : Call) (s t : Ledger) (u : Unit {0})
    → send native c s ≡ (ok u, t)
    → t ≡ record s { committed = s.committed ++ c ∷ [] }
unfolding send
send-returned native c s t u h = ground arith

-- The calls that the journal commits when it is sent one: the call, or nothing.
abbrev pub entered : Native → List Call → Call → List Call
entered native committed c = elim (native committed c) [ none ↦ c ∷ [] | some message ↦ [] ]

ignored-entered :
    (native : Native) (c : Call) (s : Ledger)
    → (ignoring (send native c) s).1.committed ≡ s.committed ++ entered native s.committed c
unfolding send
ignored-entered native c s = elim (Option-cases (native s.committed c)) [
  | inl accepted ↦ rw (accepted, entered) refl
  | inr (m, refused) ↦ rw (refused, entered) (sym (append-nil s.committed))
]

module _ ⦃platform : Platform⦄ (native : Native) (task : Task) where
  settle-returned :
      (r : Outcome Value) (v : Value) (s t : Ledger)
      → settle native task r s ≡ (ok v, t)
      → (r ≡ ok v)
        × (out : String) × (record_json v "operation result" ≡ ok out)
        × (t.committed ≡ s.committed ++ finish_call task "succeeded" out "{}" ∷ [])
  unfolding settle
  settle-returned (ok w) v s t h = output_returned (record_json w "operation result") refl h
    where
      output_returned :
          (j : Outcome String)
          → record_json w "operation result" ≡ j
          → record_output native task w j s ≡ (ok v, t)
          → (ok w ≡ ok v)
            × (out : String) × (record_json v "operation result" ≡ ok out)
            × (t.committed ≡ s.committed ++ finish_call task "succeeded" out "{}" ∷ [])
      output_returned (ok out) e k =
          let (u, m, sent, rest) =
            chain-returned (send native (finish_call task "succeeded" out "{}")) (λ done. pure w) s
              v t k in
          let same : w ≡ v = cc (ap (λ (x : Outcome Value × Ledger). x.0) rest) in
          let kept : m ≡ t = ap (λ (x : Outcome Value × Ledger). x.1) rest in
          (
            ap ok same,
            out,
            rw (← same) e,
            ap (λ (x : Ledger). x.committed) (sym kept ∙ send-returned native _ s m u sent),
          )
      output_returned (raise x) e k =
          let (j, m, made, rest) =
            chain-returned (lift (exception_json x))
              (λ error_json.
                send native (finish_call task "failed" "{}" error_json)
                >> lift {S = Ledger} (raise x))
              s v t k in
          let (u, n, sent, last) =
            chain-returned (send native (finish_call task "failed" "{}" j))
              (λ done. lift {S = Ledger} (raise x)) m v t rest in
          absurd (cc (ap (λ (x : Outcome Value × Ledger). x.0) last))
  settle-returned (raise e) v s t h = absurd (
      cc (sym (record_failure-raises native task e s) ∙ ap (λ (x : Outcome Value × Ledger). x.0) h))

  callback_returned :
      (operation : Action Ledger Value) (s t : Ledger) (v : Value)
      → record_callback native task operation s ≡ (ok v, t)
      → ((operation (started task s)).0 ≡ ok v)
        × (out : String) × (record_json v "operation result" ≡ ok out)
        × (t.committed
            ≡ (operation (started task s)).1.committed
              ++ finish_call task "succeeded" out "{}" ∷ [])
  unfolding record_callback
  callback_returned operation s t v h =
      let (u, m, sent, rest) =
        chain-returned (send native (start_call task)) (λ done. run_callback native task operation)
          s v t h in
      settle-returned (operation (started task s)).0 v (operation (started task s)).1 t
        (ap (run_callback native task operation) (sym (send-returned native _ s m u sent)) ∙ rest)

  -- A recorded task that returns `v`: the callback returned `v` from the ledger in which its database is
  -- in flight and its start is committed, `v` has a JSON text, and the only call committed after the
  -- callback is the one that stores this text as the output of a succeeded process.
  pub record_task_returned :
      (operation : Action Ledger Value) (s t : Ledger) (v : Value)
      → record_task native task operation s ≡ (ok v, t)
      → ((operation (in_flight task s)).0 ≡ ok v)
        × (out : String) × (record_json v "operation result" ≡ ok out)
        × (t.committed
            ≡ (operation (in_flight task s)).1.committed
              ++ finish_call task "succeeded" out "{}" ∷ [])
  unfolding record_task
  record_task_returned operation s t v h = elim (Bool-cases (is_in task.db s.busy)) [
    | inl e ↦ absurd (cc (ap (λ (x : Outcome Value × Ledger). x.0) (rw e at h)))
    | inr e ↦
        let k = rw e at h in
        let taken = record s { busy = task.db ∷ s.busy } in
        let run = record_callback native task operation taken in
        let (returned, out, made, kept) =
          callback_returned operation taken run.1 v
            (ap (λ (x : Outcome Value × Ledger). (x.0, run.1)) k) in
        (returned, out, made, ap (λ (x : Outcome Value × Ledger). x.1.committed) (sym k) ∙ kept)
  ]

  failure-entered :
      (e : Error) (s : Ledger) (error_json : String)
      → exception_json e ≡ ok error_json
      → (record_failure native task e s).1.committed
        ≡ s.committed ++ entered native s.committed (finish_call task "failed" "{}" error_json)
  unfolding record_failure
  failure-entered e s error_json made = rw made (ignored-entered native _ s)

  callback_raised :
      (operation : Action Ledger Value) (s : Ledger) (e : Error)
      → native s.committed (start_call task) ≡ none
      → (operation (started task s)).0 ≡ raise e
      → record_callback native task operation s
        ≡ record_failure native task e (operation (started task s)).1
  unfolding record_callback settle
  callback_raised operation s e accepted failed =
      let called =
        chain-ok (send native (start_call task)) (λ done. run_callback native task operation) s tt
          (started task s) (send-ok native (start_call task) s accepted) in
      called ∙ rw failed refl

  -- A task whose database has no callback in flight, and whose start the journal accepts: if the callback
  -- raises an exception, this same exception comes out, and the only call that is sent to the journal after
  -- the callback, which commits it or not, stores the exception's type and message as the error of a
  -- failed process.
  pub record_task_raised :
      (operation : Action Ledger Value) (s : Ledger) (e : Error)
      → is_in task.db s.busy ≡ false
      → native s.committed (start_call task) ≡ none
      → (operation (in_flight task s)).0 ≡ raise e
      → ((record_task native task operation s).0 ≡ raise e)
        × (error_json : String) × (exception_json e ≡ ok error_json)
        × ((record_task native task operation s).1.committed
            ≡ (operation (in_flight task s)).1.committed
              ++ entered native
                  (operation (in_flight task s)).1.committed
                  (finish_call task "failed" "{}" error_json))
  unfolding record_task
  record_task_raised operation s e free accepted failed =
      let (error_json, made) = exception_json-ok e in
      let taken = record s { busy = task.db ∷ s.busy } in
      let after = (operation (in_flight task s)).1 in
      let ran = callback_raised operation taken e accepted failed in
      (
        rw free (
            ap (λ (x : Outcome Value × Ledger). x.0) ran
            ∙ record_failure-raises native task e after),
        error_json,
        made,
        rw free (
            ap (λ (x : Outcome Value × Ledger). x.1.committed) ran
            ∙ failure-entered e after error_json made),
      )
