-- ===== src/Journal/Whole.antt =====
-- python/fala/read.py: reading a row, and a listing, either return or raise RuntimeError.
use fala.Prelude.{
  ℕ, suc, ◌≤◌, String, ◌≡◌, refl, inl, inr, Bool, true, not, ◌&&◌, ◌||◌, List, [], ◌∷◌, arith,
  is_in, ltb, length, Bool-cases, if◌then◌else◌,
}
use fala.Prelude.Int.{pos}
use fala.Python.Outcome.{Outcome, ok, raise, runtime_error, is_ok, ◌>>=◌}
use fala.Python.Value.{Fields, dict, get, has, keys}
use fala.Python.Json.{Platform, spaced, dumps}
use fala.Inspection.Leases.{rows, is_six}
use fala.Journal.Limits.{read_limit_lem}
use fala.Inspection.Rows.{process_statuses, run_statuses}
use fala.Journal.Records.{
  Record, run_columns, read_columns, check_record, rename_process, read_record, is_named,
  has_status, other_version, present_unnamed,
}
use fala.Journal.Reads.{Journal, opened, open_journal, take, read_all, read_bounded, list_runs}
use fala.Journal.Spelling.{AreSpelled, IsSpelled-dict}
use fala.Journal.Errors.{
  RaisesOnly, RaisesOnly-chain, RaisesOnly-raise_if, RaisesOnly-guard, read_columns-RaisesOnly,
}
use fala.Journal.Renames.{has-keys, read_columns-keys, rename_process-ok}

-- Columns with `input_json` among them have the other three JSON columns of a process too.
abbrev pub are_whole : List String → Bool
are_whole columns =
    not (is_in "input_json" columns)
    || (is_in "output_json" columns
        && (is_in "error_json" columns && is_in "output_schema_json" columns))

module _ ⦃platform : Platform⦄ where
  check_record-RaisesOnly : (fs : Fields) → RaisesOnly runtime_error (check_record fs)
  unfolding check_record
  check_record-RaisesOnly fs =
      let allowed = if has "process_type" fs then process_statuses else run_statuses in
      RaisesOnly-guard runtime_error (not (is_named (get "id" fs)))
        "fala read: row id must be non-empty text" _
        (RaisesOnly-guard runtime_error (not (has_status allowed (get "status" fs)))
          "fala read: row has an invalid status" _
          (RaisesOnly-guard runtime_error (other_version (get "schema_version" fs))
            "fala read: run has an invalid schema version" _
            (RaisesOnly-raise_if runtime_error (present_unnamed (get "run_id" fs))
              "fala read: process run_id must be non-empty text")))

  returned-RaisesOnly {ℓ κ} :
      {A : Type ℓ} {B : Type κ} (m : Outcome A) (b : B)
      → is_ok m ≡ true
      → RaisesOnly runtime_error (m >>= λ _. ok b)
  returned-RaisesOnly (ok a) b h = tt
  returned-RaisesOnly (raise e) b h = absurd (cc h)

  renamed : Fields → Outcome Fields
  renamed fs = if has "input_json" fs then rename_process fs else ok fs

  renamed-ok :
      (columns : List String) (fs : Fields)
      → are_whole columns ≡ true
      → keys fs ≡ columns
      → AreSpelled fs
      → (gs : Fields) × (renamed fs ≡ ok gs) × AreSpelled gs
  unfolding renamed
  renamed-ok columns fs w k g = elim (Bool-cases (is_in "input_json" columns)) [
    | inr e ↦ (fs, rw (has-keys "input_json" fs, k, e) refl, g)
    | inl e ↦
        let (gs, p, spelled) =
          rename_process-ok fs (rw k e) (rw k (ground (arith, w, e))) (rw k (ground (arith, w, e)))
            (rw k (ground (arith, w, e))) g in
        (gs, rw (has-keys "input_json" fs, k, e) p, spelled)
  ]

  -- Whatever a row holds, reading it returns a record or raises RuntimeError, and no other exception.
  -- The columns, if `input_json` is among them, have the other three JSON columns of a process.
  pub read_record-RaisesOnly :
      (columns : List String) (row : Record)
      → are_whole columns ≡ true
      → RaisesOnly runtime_error (read_record columns row)
  unfolding read_record renamed
  read_record-RaisesOnly columns row w =
      RaisesOnly-chain runtime_error (read_columns columns row) _
        (read_columns-RaisesOnly columns row)
        (λ fs p.
          RaisesOnly-chain runtime_error (check_record fs) _ (check_record-RaisesOnly fs) (λ _ _.
            let (named, spelled) = read_columns-keys columns row fs p in
            let (gs, q, can) = renamed-ok columns fs w named spelled in
            rw q (returned-RaisesOnly (dumps spaced (dict gs)) gs (IsSpelled-dict gs can))))

  read_all-RaisesOnly :
      (columns : List String) (rs : List Record)
      → are_whole columns ≡ true
      → RaisesOnly runtime_error (read_all columns rs)
  unfolding read_all
  read_all-RaisesOnly columns [] w = tt
  read_all-RaisesOnly columns (r ∷ rs) w =
      RaisesOnly-chain runtime_error (read_record columns r) _ (read_record-RaisesOnly columns r w)
        (λ fs p.
          RaisesOnly-chain runtime_error (read_all columns rs) _ (read_all-RaisesOnly columns rs w)
            (λ rest q. tt))

  open_journal-RaisesOnly : (j : Journal) → RaisesOnly runtime_error (open_journal (opened j))
  unfolding open_journal
  open_journal-RaisesOnly j =
      RaisesOnly-guard runtime_error (not (is_six j.user_version) || not (is_six j.migration))
        "fala read: schema v6 is required" _ tt

  -- With a limit from 1 through 100000 and a journal that opens, whatever its tables hold, `list_runs`
  -- returns or raises RuntimeError.
  pub list_runs-RaisesOnly :
      (j : Journal) (n : ℕ)
      → 1 ≤ n
      → n ≤ 100000
      → RaisesOnly runtime_error (list_runs (opened j) (rows (pos n)))
  unfolding list_runs read_bounded
  list_runs-RaisesOnly j n low high = rw ((read_limit_lem n n).1 (low, high, refl)) (
      RaisesOnly-chain runtime_error (open_journal (opened j)) _ (open_journal-RaisesOnly j) (λ k p.
        RaisesOnly-guard runtime_error (ltb n (length (take (suc n) k.runs)))
          "fala read: run row limit exceeded" _
          (read_all-RaisesOnly run_columns (take (suc n) k.runs) refl)))
