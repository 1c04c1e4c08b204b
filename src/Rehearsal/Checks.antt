-- ===== src/Rehearsal/Checks.antt =====
-- python/fala/rehearsal.py: the checks between the backup and the plan of `rehearse_journal_retention`.
use fala.Prelude.{◌+◌, Bool, not, ◌||◌, ltb}
use fala.Prelude.Int.{pos_part}
use fala.Python.Outcome.{Outcome, ok, raise_if, ◌>>=◌, ◌>>◌}
use fala.Python.Value.{Fields, dict, value_eq}
use fala.Rehearsal.Policy.{Terms}
use fala.Rehearsal.Snapshot.{
  Notes, footprint, stable_sqlite_set, same_place, is_at, is_sound, is_empty, fault,
}

-- `free_pre < required`
abbrev pub is_short : Terms → Notes → Bool
is_short terms n = ltb n.free_pre (footprint n.before + pos_part terms.margin)

-- `before != after`
abbrev pub is_stable : Notes → Bool
is_stable n = value_eq (dict (stable_sqlite_set n.before)) (dict (stable_sqlite_set n.after))

abbrev pub is_unmoved : Notes → Bool
is_unmoved n = value_eq (dict n.snapshot_before) (dict n.snapshot_after)

-- The plan of the dry run, or what stopped it.
unfoldable pub checked_plan : Terms → Notes → Outcome Fields
checked_plan terms n = do
  raise_if (not (same_place n.current n.reserved)) (fault "snapshot path identity changed")
  raise_if (is_at n.current n.before.main) (fault "snapshot aliases source")
  n.normalized
  raise_if (not (is_sound n.integrity)) (fault "snapshot integrity check failed: ")
  raise_if (not (is_empty n.foreign_keys)) (fault "snapshot foreign-key check failed: ")
  raise_if (ltb n.free_post (pos_part terms.margin)) (fault "insufficient post-backup space (")
  dry_plan ← n.dry_plan
  n.normalized_again
  raise_if (not (is_unmoved n)) (fault "dry-run mutated the rehearsal snapshot")
  raise_if (not (is_sound n.post_integrity) || not (is_empty n.post_foreign_keys))
      (fault "post-plan snapshot validation failed")
  raise_if (not (is_stable n)) (fault "source main/WAL/SHM identity changed")
  ok dry_plan
