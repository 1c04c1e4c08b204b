-- ===== src/Journal/Records.antt =====
-- python/fala/read.py: how one row of a journal becomes a JSON-safe record.
use fala.Prelude.{
  String, ◌<>◌, Bool, false, not, Option, none, some, List, [], ◌∷◌, if◌then◌else◌, is_in,
}
use fala.Prelude.Int.{pos}
use fala.Python.Outcome.{
  Outcome, ok, raise, raise_if, Error, builtin, runtime_error, key_error, ◌>>=◌, ◌>>◌,
}
use fala.Python.Number.{is_finite}
use fala.Python.Value.{
  Value, Items, Fields, null, bool, int, float, str, list, dict, nil, item, end, field, get, has,
  pop, put, value_eq,
}
use fala.Python.Text.{truthy}
use fala.Python.Json.{Platform, spaced, dumps}
-- The two sets of statuses are those of the lease inspection.
use fala.Inspection.Rows.{Cell, integer, real, blob, process_statuses, run_statuses}

-- A `sqlite3.Row`: the cell of each column that was selected.
abbrev pub Record : Type 0
Record = String → Cell

abbrev pub run_columns : List String
run_columns =
    "id" ∷ "status" ∷ "title" ∷ "package_id" ∷ "package_version" ∷ "package_digest"
    ∷ "correlation_path_id" ∷ "correlation_path_digest" ∷ "runtime_version" ∷ "backend_version"
    ∷ "schema_version" ∷ "metadata" ∷ "created_at" ∷ "updated_at" ∷ "started_at" ∷ "finished_at"
    ∷ []

abbrev pub process_columns : List String
process_columns =
    "run_id" ∷ "id" ∷ "process_type" ∷ "impulse_id" ∷ "status" ∷ "priority" ∷ "attempt"
    ∷ "max_attempts" ∷ "available_at" ∷ "lease_owner" ∷ "lease_expires_at" ∷ "input_json"
    ∷ "output_json" ∷ "error_json" ∷ "metadata" ∷ "created_at" ∷ "updated_at" ∷ "started_at"
    ∷ "finished_at" ∷ "output_schema_json" ∷ []

abbrev pub json_fields : List String
json_fields = "metadata" ∷ "input_json" ∷ "output_json" ∷ "error_json" ∷ "output_schema_json" ∷ []

-- `RuntimeError(f"fala read: …")`
abbrev pub read_error : String → Error
read_error message = builtin runtime_error ("fala read: " <> message)

-- `_safe`, of what is a JSON value already; inside it the field has no name.
unfoldable mutual
  pub safe_value : String → Value → Outcome Value
  safe_value name (float x) =
      if is_finite x then ok (float x) else raise (read_error ("non-JSON-safe value in " <> name))
  safe_value name (list vs) = do ws ← safe_items vs; ok (list ws)
  safe_value name (dict fs) = do gs ← safe_fields fs; ok (dict gs)
  safe_value name null = ok null
  safe_value name (bool b) = ok (bool b)
  safe_value name (int n) = ok (int n)
  safe_value name (str s) = ok (str s)

  pub safe_items : Items → Outcome Items
  safe_items nil = ok nil
  safe_items (item v vs) = do w ← safe_value "" v; ws ← safe_items vs; ok (item w ws)

  pub safe_fields : Fields → Outcome Fields
  safe_fields end = ok end
  safe_fields (field k v fs) = do w ← safe_value "" v; gs ← safe_fields fs; ok (field k w gs)

-- a column that is not JSON text
abbrev pub plain_cell : String → Cell → Outcome Value
plain_cell name Cell.null = ok null
plain_cell name (integer n) = ok (int n)
plain_cell name (real x) =
    if is_finite x then ok (float x) else raise (read_error ("non-JSON-safe value in " <> name))
plain_cell name (Cell.text s) = ok (str s)
plain_cell name (blob hex) = raise (read_error ("non-JSON-safe value in " <> name))

abbrev pub loaded : String → Option Value → Outcome Value
loaded name none = raise (read_error ("malformed " <> name))
loaded name (some v) = safe_value name v

module _ ⦃platform : Platform⦄ where
  abbrev pub json_cell : String → Cell → Outcome Value
  json_cell name (Cell.text s) = loaded name (platform.loads s)
  json_cell name _ = raise (read_error (name <> " is not JSON text"))

  -- `_safe(row[name], name)`
  unfoldable pub safe_cell : String → Cell → Outcome Value
  unfolding safe_value
  safe_cell name c = if is_in name json_fields then json_cell name c else plain_cell name c

  -- `{name: _safe(row[name], name) for name in columns}`
  unfoldable pub read_columns : List String → Record → Outcome Fields
  read_columns [] row = ok end
  read_columns (name ∷ names) row = do
    v ← safe_cell name (row name)
    fs ← read_columns names row
    ok (field name v fs)

abbrev pub is_named : Option Value → Bool
is_named (some (str s)) = truthy s
is_named _ = false

abbrev pub has_status : List String → Option Value → Bool
has_status names (some (str s)) = is_in s names
has_status names _ = false

-- `key in result and result[key] != 6`
abbrev pub other_version : Option Value → Bool
other_version none = false
other_version (some v) = not (value_eq v (int (pos 6)))

-- `key in result and (not isinstance(result[key], str) or not result[key])`
abbrev pub present_unnamed : Option Value → Bool
present_unnamed none = false
present_unnamed (some v) = not (is_named (some v))

-- `result[new] = result.pop(old)`
abbrev pub moved : String → Option Value → String → Fields → Outcome Fields
moved old none new fs = raise (builtin key_error old)
moved old (some v) new fs = ok (put new v (pop old fs))

abbrev pub rename : String → String → Fields → Outcome Fields
rename old new fs = moved old (get old fs) new fs

abbrev pub rename_process : Fields → Outcome Fields
rename_process fs = do
  a ← rename "input_json" "input" fs
  b ← rename "output_json" "output" a
  c ← rename "error_json" "error" b
  rename "output_schema_json" "output_schema" c

module _ ⦃platform : Platform⦄ where
  -- the checks of `_row`, of the fields that were read
  unfoldable pub check_record : Fields → Outcome (Unit {0})
  check_record fs = do
    raise_if (not (is_named (get "id" fs))) (read_error "row id must be non-empty text")
    let statuses = if has "process_type" fs then process_statuses else run_statuses
    raise_if (not (has_status statuses (get "status" fs))) (read_error "row has an invalid status")
    raise_if (other_version (get "schema_version" fs))
        (read_error "run has an invalid schema version")
    raise_if (present_unnamed (get "run_id" fs))
        (read_error "process run_id must be non-empty text")

  -- `_row`. The final `json.dumps` is there for the exception that it might raise.
  unfoldable pub read_record : List String → Record → Outcome Fields
  unfolding read_columns check_record
  read_record columns row = do
    fs ← read_columns columns row
    check_record fs
    result ← if has "input_json" fs then rename_process fs else ok fs
    _ ← dumps spaced (dict result)
    ok result
