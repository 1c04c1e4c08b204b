-- ===== src/ChildPath/Driven.antt =====
-- python/fala/child_path.py: `main`.
use fala.Prelude.{
  ℕ, String, ◌<>◌, Bool, false, Option, none, some, List, [], ◌∷◌, if◌then◌else◌, ◌==◌,
}
use fala.Python.Outcome.{Outcome, ok, raise}
use fala.Python.Effect.{Action, lift, gets, pure, ◌>>=◌}
use fala.Python.Value.{Value, Fields, str}
use fala.Python.Json.{Platform}
use fala.Sdk.Effector.{Written}
use fala.Host.Calls.{Native}
use fala.Host.Package.{Site, Hall, host_run_package}
use fala.ChildPath.Plan.{Plan, member, plan_child, report}

-- What the process leaves: its exit status, the result if one was written, and the files it removed.
pub record Ended : Type 0 where
  pub status : ℕ
  pub output : Option Written
  pub removed : List String

abbrev pub is_text : String → Value → Bool
is_text s (str t) = t == s
is_text s _ = false

-- the end of `main`, once the result is written
abbrev pub retained : String → Written → Outcome Value → Ended
retained child_db w (raise e) = record { status = 1; output = some w; removed = [] }
retained child_db w (ok retention) = record {
  status = 0;
  output = some w;
  removed =
      if is_text "delete_on_success" retention
      then child_db ∷ (child_db <> "-wal") ∷ (child_db <> "-shm") ∷ []
      else [];
}

abbrev pub ended : Outcome (Plan × Written) → Ended
ended (raise e) = record { status = 1; output = none; removed = [] }
ended (ok (plan, w)) = retained plan.child_db w (member "retention" plan.spec)

module _ ⦃platform : Platform⦄ where
  abbrev pub finish_child : Plan → Fields → Action Hall (Plan × Written)
  finish_child plan reply = do
    after ← gets (λ h. h.0.environ)
    w ← lift (report plan after reply)
    pure {S = Hall} {A = Plan × Written} (plan, w)

  abbrev pub drive_child : Site → Native → Plan → Action Hall (Plan × Written)
  drive_child site native plan = do
    reply ← host_run_package site native plan.order
    finish_child plan reply

  abbrev pub run_child :
      Site → Native → (read_text : String → Outcome String) → Action Hall (Plan × Written)
  run_child site native read_text = do
    environ ← gets (λ h. h.0.environ)
    plan ← lift (plan_child site.resolve environ read_text)
    drive_child site native plan

  -- `main`
  unfoldable pub main : Site → Native → (read_text : String → Outcome String) → Hall → Ended × Hall
  main site native read_text h =
      let (r, after) = run_child site native read_text h in (ended r, after)
