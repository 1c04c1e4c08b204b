-- ===== src/Rehearsal/Run.antt =====
-- python/fala/rehearsal.py: `rehearse_journal_retention`. The state is the names in the output directory;
-- the spelling of the plan is a parameter, since it is indented.
use fala.Prelude.{String, Option, List}
use fala.Prelude.Int.{ℤ}
use fala.Python.Number.{Float}
use fala.Python.Outcome.{Outcome, raise_if}
use fala.Python.Effect.{Action, lift, modify, pure, ◌>>=◌, ◌>>◌}
use fala.Python.Value.{Fields, str, put}
use fala.Host.Directory.{discard}
use fala.Rehearsal.Policy.{Terms, policy}
use fala.Rehearsal.Snapshot.{
  Notes, fault, marker, snapshot_name, plan_name, write_exclusive, under, result,
}
use fala.Rehearsal.Checks.{is_short, checked_plan}

module _ (encode : Fields → Outcome String) where
  abbrev pub write_plan : Notes → Fields → Action (List String) Fields
  write_plan n document = do
    encoded ← lift (encode document)
    write_exclusive plan_name n.plan_file
    lift n.marker_removed
    modify (discard marker)
    lift n.directory_synced
    pure (put "plan_path" (str (under n.output plan_name)) document)

  abbrev pub plan_snapshot : Terms → Notes → Action (List String) Fields
  plan_snapshot terms n = do
    write_exclusive snapshot_name n.snapshot_file
    dry_plan ← lift (checked_plan terms n)
    write_plan n (result terms n dry_plan)

  -- the output directory is there
  abbrev pub rehearse_in : Terms → Notes → Action (List String) Fields
  rehearse_in terms n = do
    write_exclusive marker n.marker_file
    lift (raise_if (is_short terms n) (fault "insufficient pre-backup space ("))
    plan_snapshot terms n

  -- `rehearse_journal_retention`
  unfoldable pub rehearse_journal_retention :
      (to_float : ℤ → Option Float) → Fields → Notes → Action (List String) Fields
  rehearse_journal_retention to_float value n = do
    terms ← lift (policy to_float value)
    lift n.source_found
    lift n.output_made
    rehearse_in terms n
