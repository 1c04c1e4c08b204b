-- ===== src/Rehearsal/Snapshot.antt =====
-- python/fala/rehearsal.py: `_stable_sqlite_set` and `rehearse_journal_retention`. What is observed on the
-- way, at the file system and at the two databases, is handed in; the state is the names in the output
-- directory, which is made anew. An observation that itself fails is not modelled; a message is kept up to
-- the first value that it quotes.
use fala.Prelude.{
  ℕ, ◌+◌, String, ◌<>◌, map, Bool, true, false, ◌&&◌, Option, some, List, [], ◌∷◌, ◌==◌,
}
use fala.Prelude.Int.{ℤ, pos, eqb_ℤ, pos_part}
use fala.Python.Outcome.{Outcome, Error, builtin, runtime_error}
use fala.Python.Effect.{Action, lift, modify, ◌>>◌}
use fala.Python.Value.{
  Value, Fields, bool, int, float, str, list, dict, items_of, end, field, get, pop,
}
use fala.Rehearsal.Policy.{Terms}

-- What `_identity` sees of a file.
pub data Seen : Type 0 where
  missing : Seen
  file : (device inode size_bytes mtime_ns : ℤ) → (sha256 : String) → Seen

-- `_identity`
abbrev pub identity_of : Seen → Fields
identity_of missing = field "present" (bool false) end
identity_of (file device inode size_bytes mtime_ns sha256) = field "present" (bool true) (
    field "device" (int device) (
      field "inode" (int inode) (
        field "size_bytes" (int size_bytes)
          (field "mtime_ns" (int mtime_ns) (field "sha256" (str sha256) end)))))

-- a measured file without its time, and a shared memory without all but its place
abbrev pub without_time : Seen → Fields
without_time missing = identity_of missing
without_time (file d i n t h) = pop "mtime_ns" (identity_of (file d i n t h))

abbrev pub place_of : Seen → Fields
place_of missing = identity_of missing
place_of (file d i n t h) =
    field "present" (bool true) (field "device" (int d) (field "inode" (int i) end))

-- The three files of a journal.
pub record Files : Type 0 where
  pub main : Seen
  pub wal : Seen
  pub shm : Seen

-- `_stable_sqlite_set`
unfoldable pub stable_sqlite_set : Files → Fields
stable_sqlite_set files =
    field "main" (dict (without_time files.main))
      (field "wal" (dict (without_time files.wal)) (field "shm" (dict (place_of files.shm)) end))

-- `x.get("size_bytes", 0)`
abbrev pub size_of : Option Value → ℕ
size_of (some (int n)) = pos_part n
size_of _ = 0

abbrev pub footprint : Files → ℕ
footprint files =
    size_of (get "size_bytes" (without_time files.main))
    + size_of (get "size_bytes" (without_time files.wal))

-- How a file is made that must not be there yet: whether it can be, and whether it is then filled. A file that is
-- made and not filled stays.
pub record Filing : Type 0 where
  pub opened : Outcome (Unit {0})
  pub filled : Outcome (Unit {0})

-- What is found on the way, in the order in which it is found.
pub record Notes : Type 0 where
  -- the source is a regular file and no symbolic link, and the output directory was made
  pub source_found : Outcome (Unit {0})
  pub output_made : Outcome (Unit {0})
  pub marker_file : Filing
  pub before : Files
  pub free_pre : ℕ
  -- the snapshot is made, and filled by the backup
  pub snapshot_file : Filing
  -- the device and inode of the snapshot, as it was made and after the backup
  pub reserved : ℤ × ℤ
  pub current : ℤ × ℤ
  pub normalized : Outcome (Unit {0})
  pub integrity : List String
  pub foreign_keys : List Value
  pub free_post : ℕ
  pub snapshot_before : Fields
  -- `maintain_journal` on the snapshot, with `dry_run`
  pub dry_plan : Outcome Fields
  pub normalized_again : Outcome (Unit {0})
  pub snapshot_after : Fields
  pub post_integrity : List String
  pub post_foreign_keys : List Value
  pub after : Files
  pub plan_file : Filing
  -- `marker.unlink()`, and the `fsync` of the directory
  pub marker_removed : Outcome (Unit {0})
  pub directory_synced : Outcome (Unit {0})
  pub created_at : String
  pub source : String
  pub output : String

abbrev pub same_place : ℤ × ℤ → ℤ × ℤ → Bool
same_place (d, i) (e, j) = eqb_ℤ d e && eqb_ℤ i j

abbrev pub is_at : ℤ × ℤ → Seen → Bool
is_at place missing = false
is_at place (file d i n t h) = same_place (d, i) place

-- `["ok"]`
abbrev pub is_sound : List String → Bool
is_sound (s ∷ []) = s == "ok"
is_sound _ = false

abbrev pub is_empty : List Value → Bool
is_empty [] = true
is_empty (v ∷ vs) = false

abbrev pub fault : String → Error
fault message = builtin runtime_error ("fala rehearsal: " <> message)

abbrev pub marker : String
marker = ".incomplete"

abbrev pub snapshot_name : String
snapshot_name = "journal.snapshot.sqlite"

abbrev pub plan_name : String
plan_name = "retention-plan.json"

abbrev pub write : String → Action (List String) (Unit {0})
write name = modify (name ∷◌)

-- `_write_exclusive`
abbrev pub write_exclusive : String → Filing → Action (List String) (Unit {0})
write_exclusive name f = do lift f.opened; write name; lift f.filled

abbrev pub text_list : List String → Value
text_list ss = list (items_of (map str ss))

abbrev pub under : String → String → String
under directory name = directory <> ("/" <> name)

-- `result`
abbrev pub result : Terms → Notes → Fields → Fields
result terms n dry_plan = field "schema_version" (int (pos 1)) (
    field "created_at" (str n.created_at) (
      field "source" (str n.source) (
        field "snapshot" (str (under n.output snapshot_name)) (
          field "source_before" (dict (stable_sqlite_set n.before)) (
            field "source_after" (dict (stable_sqlite_set n.after)) (
              field "source_footprint_bytes" (int (pos (footprint n.before))) (
                field "space"
                  (dict (
                    field "required_pre_bytes"
                      (int (pos (footprint n.before + pos_part terms.margin)))
                      (field "free_pre_bytes" (int (pos n.free_pre)) (
                        field "safety_margin_bytes" (int terms.margin)
                          (field "free_post_bytes" (int (pos n.free_post)) end)))))
                  (field "integrity_check"
                    (dict (
                      field "pre" (text_list n.integrity)
                        (field "post" (text_list n.post_integrity) end)))
                    (field "foreign_key_check"
                      (dict (
                        field "pre" (list (items_of n.foreign_keys))
                          (field "post" (list (items_of n.post_foreign_keys)) end)))
                      (field "snapshot_before" (dict n.snapshot_before) (
                        field "snapshot_after" (dict n.snapshot_after) (
                          field "policy"
                            (dict (
                              field "older_than_days" (float terms.age)
                                (field "keep_last" (int terms.keep) end)))
                            (field "dry_run" (dict dry_plan) (
                              field "read_only_rehearsal" (bool true) (
                                field "authority" (str "fala.rehearse_journal_retention")
                                  end)))))))))))))))
