-- ===== src/Lifecycle/Native.antt =====
-- python/fala/journal.py: `_native_call`, and the operations from their checked arguments on. What the
-- native journal does with an operation and the text of a request is a parameter.
use fala.Prelude.{String, none}
use fala.Python.Outcome.{Outcome, ok}
use fala.Python.Effect.{Action, lift, ◌>>=◌, ◌>>◌}
use fala.Python.Value.{Value, dict}
use fala.Python.Json.{Platform, spaced, dumps}
use fala.Host.Directory.{Process, Place, with_sqlite_cwd}
use fala.Lifecycle.Calls.{Call}
use fala.Lifecycle.Reply.{LifecycleResult, translated, result_of, result_from}

-- The native libraries, the place where calls run, and the journal.
pub record Engine : Type 0 where
  pub ready : Outcome (Unit {0})
  pub place : Place
  pub run : (operation payload : String) → Action Process Value

module _ ⦃platform : Platform⦄ (engine : Engine) where
  -- `_call`
  unfoldable pub call_engine : Call → Action Process Value
  call_engine call p =
      let (r, t) =
        (do payload ← lift (dumps spaced (dict call.request)); engine.run call.operation payload)
          p in
      (translated call.operation r, t)

  -- `_native_call`
  unfoldable pub native_call : Call → Action Process Value
  unfolding call_engine
  native_call call = do lift engine.ready; with_sqlite_cwd engine.place none (call_engine call)

  -- an operation that returns None, from its checked arguments on
  unfoldable pub perform : Outcome Call → Action Process (Unit {0})
  unfolding native_call
  perform checked = do call ← lift checked; out ← native_call call; lift (ok tt)

  -- `complete_waiting_process`, from its checked arguments on
  unfoldable pub complete : Outcome Call → Action Process LifecycleResult
  unfolding native_call result_of
  complete checked = do call ← lift checked; out ← native_call call; lift (result_from out)
