-- ===== src/Lifecycle/Desk.antt =====
-- python/fala/journal.py: `_native_call` with the native libraries that it makes ready. What an operation
-- of an extension does is a parameter, which `getattr` finds by its name or not.
use fala.Prelude.{String, Option, none, some}
use fala.Python.Outcome.{Outcome, ok, raise, builtin, attribute_error}
use fala.Python.Effect.{Action, lift, ◌>>=◌}
use fala.Python.Value.{Value}
use fala.Python.Json.{Platform}
use fala.Host.Directory.{Process, Place}
use fala.Build.Libraries.{Site}
use fala.Build.Sources.{Tools}
use fala.Build.SqliteFire.{Workshop}
use fala.Build.Extension.{Yard}
use fala.Build.Imports.{Session, Loader, Imported}
use fala.Build.Engine.{ensure_engine}
use fala.Lifecycle.Calls.{Call}
use fala.Lifecycle.Native.{Engine, native_call}

-- The sources, caches and libraries, and the process that calls.
pub record Desk (ember fire : Tools) : Type 0 where
  pub session : Session ember fire
  pub process : Process

-- An operation of the extension: the text of a request to a reply.
abbrev pub Operation : Type 0
Operation = String → Action Process Value

-- the engine behind one operation, once the libraries are there
abbrev pub engine_of : Place → Operation → Engine
engine_of place fn = record { ready = ok tt; place = place; run = λ operation. fn }

module _ {ember fire : Tools} where
  abbrev pub at_session : {A : Type 0} → Action (Session ember fire) A → Action (Desk ember fire) A
  at_session body d = let (r, s) = body d.session in (r, record d { session = s })

  abbrev pub at_process : {A : Type 0} → Action Process A → Action (Desk ember fire) A
  at_process body d = let (r, p) = body d.process in (r, record d { process = p })

abbrev pub found : String → Option Operation → Outcome Operation
found name none = raise (builtin attribute_error name)
found name (some fn) = ok fn

module _ ⦃platform : Platform⦄ (ember fire : Tools) (yard : Yard ember fire) (loader : Loader)
    (workshop : Workshop fire) (site : Site) (place : Place)
    (getattr : Imported → String → Option Operation) where
  -- `_native_call`, from the missing libraries on
  unfoldable pub native_call_from : Call → Action (Desk ember fire) Value
  native_call_from call = do
    native ← at_session (ensure_engine ember fire yard loader workshop site)
    fn ← lift (found call.operation (getattr native call.operation))
    at_process (native_call (engine_of place fn) call)
