-- ===== src/Host/Calls.antt =====
-- python/fala/host.py: `open_sqlite`, `maintain_journal`, `recover_incomplete` and `delete_terminal_run`.
-- The directory of a database is there. A native operation is what it does with the text of its
-- request; a message that quotes the repr of a reply is kept up to that.
use fala.Prelude.{String, ◌<>◌, Bool, false, Option, none, some, if◌then◌else◌}
use fala.Python.Outcome.{Outcome, ok, raise, Error, builtin, value_error, runtime_error}
use fala.Python.Effect.{Action, lift, ◌>>=◌, ◌>>◌}
use fala.Python.Value.{Value, Fields, bool, dict, get}
use fala.Python.Text.{contains}
use fala.Python.Json.{Platform}
use fala.Sdk.Inputs.{value_truthy}
use fala.Host.Directory.{Process, with_sqlite_cwd}
use fala.Host.Tasks.{error_text}
use fala.Host.Arguments.{World, maintain_request, recover_request, delete_request}

abbrev pub Native : Type 0
Native = String → Action Process Value

-- a reply that is a dict whose `ok` passes the test
abbrev pub replied : (Option Value → Bool) → Error → Value → Outcome Fields
replied test e (dict fs) = if test (get "ok" fs) then ok fs else raise e
replied test e _ = raise e

abbrev pub is_true : Option Value → Bool
is_true (some (bool b)) = b
is_true _ = false

abbrev pub is_truthy : Option Value → Bool
is_truthy none = false
is_truthy (some v) = value_truthy v

-- the `except` of `delete_terminal_run`
abbrev pub deletion_error : (run_id message : String) → Error
deletion_error rid message =
    if contains message "run_id must not be empty"
    then builtin value_error "fala.delete_terminal_run: run_id must not be blank"
    else if contains message "unknown run"
    then builtin value_error ("fala.delete_terminal_run: unknown run: " <> rid)
    else if contains message "not terminal"
    then builtin value_error ("fala.delete_terminal_run: run is not terminal: " <> rid)
    else builtin runtime_error ("fala.delete_terminal_run failed: " <> message)

-- An exception of the operation is worded anew, and a reply is checked.
abbrev pub checked :
    (reword : String → Error) (refused : Error) (test : Option Value → Bool)
    → Outcome Value
    → Outcome Fields
checked reword refused test (ok out) = replied test refused out
checked reword refused test (raise e) = raise (reword (error_text e))

abbrev pub failed : (operation message : String) → Error
failed operation message =
    builtin runtime_error ("fala." <> (operation <> (" failed: " <> message)))

module _ ⦃platform : Platform⦄ (world : World) where
  -- `_call`
  unfoldable pub call_native :
      (native : Native) (reword : String → Error) (refused : Error) (test : Option Value → Bool)
      → Fields
      → Action Process Fields
  call_native native reword refused test request s =
      let (r, t) = (do payload ← lift (world.encode request); native payload) s in
      (checked reword refused test r, t)

  unfoldable pub maintain_journal :
      (native : Native) (db : String) (older_than_days keep_last vacuum dry_run : Value)
      (reaction_root : Option String)
      → Action Process Fields
  maintain_journal native db older_than_days keep_last vacuum dry_run reaction_root = do
    request ←
        lift (maintain_request world db older_than_days keep_last vacuum dry_run reaction_root)
    lift world.ready
    with_sqlite_cwd world.place none (
        call_native native (failed "maintain_journal") (failed "maintain_journal" "") is_true
          request)

  unfoldable pub recover_incomplete :
      (native : Native) (db worker_id now : String) (retry_available_at : Option String)
      → Action Process Fields
  recover_incomplete native db worker_id now retry_available_at = do
    request ← lift (recover_request world db worker_id now retry_available_at)
    lift world.ready
    with_sqlite_cwd world.place none (
        call_native native (failed "recover_incomplete") (failed "recover_incomplete" "") is_true
          request)

  unfoldable pub delete_terminal_run :
      (native : Native) (db run_id : String) → Action Process Fields
  delete_terminal_run native db run_id = do
    named_request ← lift (delete_request world db run_id)
    lift world.ready
    with_sqlite_cwd world.place none (
        call_native native (deletion_error named_request.0) (failed "delete_terminal_run" "")
          is_truthy named_request.1)

  unfoldable pub open_sqlite : (native : Native) (path : String) → Action Process Fields
  open_sqlite native path = do
    lift world.ready
    with_sqlite_cwd world.place none
        (do out ← native path; lift (replied is_truthy (failed "open_sqlite" "") out))
