-- ===== src/Host/Answers.antt =====
-- python/fala/host.py: how the calls that the native engine serves end, and what they leave behind.
use fala.Prelude.{String, ◌≡◌, refl, ◌⊎◌, Bool, true, false, Option, none}
use fala.Python.Outcome.{Outcome, ok, raise, Error, builtin, value_error, runtime_error}
use fala.Python.Effect.{Action, lift, ◌>>=◌}
use fala.Python.Keeps.{Keeps, Keeps-chain}
use fala.Python.Value.{Value, Fields, dict, get}
use fala.Python.Json.{Platform}
use fala.Sdk.Effector.{variable}
use fala.Host.Directory.{Process, Place, root_variable, library_variable, enter, with_sqlite_cwd}
use fala.Host.Restored.{with_sqlite_cwd-restores}
use fala.Host.Arguments.{World, maintain_request, recover_request, delete_request}
use fala.Host.Calls.{
  Native, is_truthy, maintain_journal, recover_incomplete, delete_terminal_run, open_sqlite,
}

-- The working directory and the two variables that a call may set while it runs.
abbrev pub settings : Process → String × Option String × Option String
settings p = (p.cwd, variable root_variable p.environ, variable library_variable p.environ)

module _ ⦃platform : Platform⦄ where
  pub with_sqlite_cwd-Keeps :
      {A : Type 0} (place : Place) (library : Option String) (fn : Action Process A)
      → Keeps settings (with_sqlite_cwd place library fn)
  with_sqlite_cwd-Keeps place library fn p =
      let (_, directory, root, _) = with_sqlite_cwd-restores place library fn p root_variable in
      let (_, _, lib, _) = with_sqlite_cwd-restores place library fn p library_variable in cc

  ready-Keeps :
      {A B : Type 0} (world : World) (request : Outcome A) (call : A → Action Process B)
      → ((a : A) → Keeps settings (call a))
      → Keeps settings (lift request >>= λ a. lift world.ready >>= λ done. call a)
  ready-Keeps world request call h =
      Keeps-chain settings (lift request) (λ a. lift world.ready >>= λ done. call a) (λ s. refl)
        (λ a. Keeps-chain settings (lift world.ready) (λ done. call a) (λ s. refl) (λ done. h a))

  -- Whatever they are given, whatever the native operation does, and whether they return or raise,
  -- `maintain_journal`, `recover_incomplete`, `delete_terminal_run` and `open_sqlite` leave the working
  -- directory, `FALA_EFFECTOR_ROOT` and `FALA_PROCESS_HOST_LIBRARY` as they were.
  pub calls-Keeps :
      (world : World) (native : Native) (db : String)
      (older_than_days keep_last vacuum dry_run : Value) (reaction_root : Option String)
      (worker_id now : String) (retry_available_at : Option String) (run_id : String)
      → Keeps settings
          (maintain_journal world native db older_than_days keep_last vacuum dry_run reaction_root)
        × Keeps settings (recover_incomplete world native db worker_id now retry_available_at)
        × Keeps settings (delete_terminal_run world native db run_id)
        × Keeps settings (open_sqlite world native db)
  unfolding maintain_journal recover_incomplete delete_terminal_run open_sqlite
  calls-Keeps world native db older_than_days keep_last vacuum dry_run reaction_root worker_id now
        retry_available_at run_id =
      (
        ready-Keeps world
            (maintain_request world db older_than_days keep_last vacuum dry_run reaction_root) _
            (λ request. with_sqlite_cwd-Keeps world.place none _),
        ready-Keeps world (recover_request world db worker_id now retry_available_at) _
            (λ request. with_sqlite_cwd-Keeps world.place none _),
        ready-Keeps world (delete_request world db run_id) _
            (λ request. with_sqlite_cwd-Keeps world.place none _),
        Keeps-chain settings (lift world.ready) _ (λ s. refl)
            (λ done. with_sqlite_cwd-Keeps world.place none _),
      )

-- A ValueError or a RuntimeError.
abbrev is_reported : Error → Bool
is_reported (builtin value_error _) = true
is_reported (builtin runtime_error _) = true
is_reported _ = false

-- The engine replied with an object whose `ok` is true.
abbrev pub accepts : Outcome Value → Bool
accepts (ok (dict reply)) = is_truthy (get "ok" reply)
accepts _ = false

-- How a deletion goes on from what the engine gave: with the engine's own reply, or with an error where it
-- gave none whose `ok` is true.
FollowsFrom : Outcome Value → Outcome Fields → Type 0
FollowsFrom given out =
    ((reply : Fields) × (given ≡ ok (dict reply))
      × (out ≡ ok reply)
      × (is_truthy (get "ok" reply) ≡ true))
    ⊎ ((e : Error) × (out ≡ raise e) × (is_reported e ≡ true) × (accepts given ≡ false))

module _ ⦃platform : Platform⦄ (world : World) (native : Native) where
  -- How a deletion whose arguments are accepted ends: with the reply of the engine to the text of the request,
  -- whose `ok` is true, or with an error, where the engine gave no such reply.
  abbrev pub IsAnswer : Fields → Process → Outcome Fields → Type 0
  IsAnswer request p out =
      ((payload : String) × (reply : Fields) × (world.encode request ≡ ok payload)
        × ((native payload (enter world.place none p)).0 ≡ ok (dict reply))
        × (out ≡ ok reply)
        × (is_truthy (get "ok" reply) ≡ true))
      ⊎ ((e : Error) × (out ≡ raise e)
          × (is_reported e ≡ true)
          × (accepts ((lift (world.encode request) >>= native) (enter world.place none p)).0
              ≡ false))
