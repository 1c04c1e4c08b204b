-- ===== src/Lifecycle/Calls.antt =====
-- python/fala/journal.py: what each operation sends to the native journal, or the exception that it
-- raises before. The path of the journal and the time are resolved texts that are handed in. A message
-- that quotes the repr of a value is kept up to that.
use fala.Prelude.{
  String, ◌<>◌, Bool, true, false, not, Option, none, some, is_some, List, [], ◌∷◌, if◌then◌else◌,
  is_in,
}
use fala.Prelude.Int.{pos, ltb_ℤ}
use fala.Python.Outcome.{
  Outcome, ok, raise, raise_if, Error, builtin, type_error, value_error, ◌>>=◌, ◌>>◌,
}
use fala.Python.Value.{Value, Fields, bool, int, str, dict, end, field}
use fala.Python.Text.{truthy}
use fala.Python.Json.{Platform, spaced, dumps}

abbrev pub run_statuses : List String
run_statuses =
    "created" ∷ "active" ∷ "waiting" ∷ "completed" ∷ "failed" ∷ "cancel_requested" ∷ "cancelled"
    ∷ "timed_out" ∷ []

abbrev pub process_statuses : List String
process_statuses =
    "pending" ∷ "ready" ∷ "running" ∷ "waiting" ∷ "retry_wait" ∷ "cancel_requested" ∷ "succeeded"
    ∷ "failed" ∷ "skipped" ∷ "cancelled" ∷ "timed_out" ∷ []

abbrev pub terminal_run_statuses : List String
terminal_run_statuses = "completed" ∷ "failed" ∷ "cancelled" ∷ "timed_out" ∷ []

abbrev pub terminal_process_statuses : List String
terminal_process_statuses = "succeeded" ∷ "failed" ∷ "skipped" ∷ "cancelled" ∷ "timed_out" ∷ []

abbrev pub terminal_blocker_statuses : List String
terminal_blocker_statuses = "completed" ∷ "cancelled" ∷ "expired" ∷ []

-- The operation of the native journal and its request.
pub record Call : Type 0 where
  pub operation : String
  pub request : Fields

abbrev pub journal_error : String → Error
journal_error message = builtin value_error ("fala journal: " <> message)

-- `{"finalize_reason": reason} if reason else None`
abbrev pub finalize_updates : Option String → Option Fields
finalize_updates none = none
finalize_updates (some reason) =
    if truthy reason then some (field "finalize_reason" (str reason) end) else none

abbrev pub is_positive : Value → Bool
is_positive (int n) = ltb_ℤ (pos 0) n
is_positive _ = false

abbrev pub fields_or : Fields → Option Fields → Fields
fields_or default none = default
fields_or default (some fs) = fs

-- the `except` of `_json`
abbrev pub recordable : String → Outcome String → Outcome String
recordable label (ok t) = ok t
recordable label (raise (builtin type_error _)) =
    raise (builtin type_error ("fala journal: " <> (label <> " is not JSON-recordable")))
recordable label (raise (builtin value_error _)) =
    raise (builtin type_error ("fala journal: " <> (label <> " is not JSON-recordable")))
recordable label (raise e) = raise e

-- `request["title"] = str(title)`, if there is a title
abbrev pub title_field : Option String → Fields
title_field none = end
title_field (some title) = field "title" (str title) end

module _ ⦃platform : Platform⦄ where
  abbrev pub spelled : Value → String
  spelled (str s) = s
  spelled v = platform.text_of v

  -- `_required`
  unfoldable pub required : Value → String → Outcome String
  required value label =
      if truthy (platform.strip (spelled value))
      then ok (platform.strip (spelled value))
      else raise (journal_error (label <> " must not be blank"))

  -- `_status`
  unfoldable pub status : Value → String → List String → Outcome String
  status value label allowed = do
    result ← required value label
    raise_if (not (is_in result allowed)) (journal_error ("invalid " <> label))
    ok result

  -- `_json`, with what stands in for None
  unfoldable pub encoded : Fields → Option Fields → String → Outcome String
  encoded default value label = recordable label (dumps spaced (dict (fields_or default value)))

  abbrev pub blocker : Option Value → Outcome String
  blocker none = ok ""
  blocker (some v) = required v "blocker_id"

module _ ⦃platform : Platform⦄ (db now : String) where
  unfoldable pub ensure_journal : Call
  ensure_journal = record { operation = "ensure_journal"; request = field "db_path" (str db) end }

  unfoldable pub upsert_run_metadata :
      (run_id : Value) (metadata : Fields) (title : Option String) (state : Value) → Outcome Call
  upsert_run_metadata run_id metadata title state = do
    rid ← required run_id "run_id"
    s ← status state "status" run_statuses
    text ← encoded end (some metadata) "metadata"
    ok (record {
      operation = "upsert_run_metadata";
      request = field "db_path" (str db) (
          field "run_id" (str rid) (
            field "status" (str s) (
              field "metadata_json" (str text) (
                field "now" (str now)
                  (field "title_present" (bool (is_some title)) (title_field title))))));
    })

  unfoldable pub transition_run : (run_id state : Value) (updates : Option Fields) → Outcome Call
  transition_run run_id state updates = do
    rid ← required run_id "run_id"
    s ← status state "status" run_statuses
    text ← encoded end updates "metadata_updates"
    ok (record {
      operation = "transition_run";
      request = field "db_path" (str db) (
          field "run_id" (str rid)
            (field "status" (str s) (field "updates_json" (str text) (field "now" (str now) end))));
    })

  unfoldable pub finalize_run : (run_id state : Value) (reason : Option String) → Outcome Call
  finalize_run run_id state reason = do
    s ← status state "status" terminal_run_statuses
    transition_run run_id (str s) (finalize_updates reason)

  unfoldable pub upsert_process :
      (run_id process_id state : Value) (output error metadata inputs : Option Fields)
      (attempt process_type : Value)
      → Outcome Call
  upsert_process run_id process_id state output error metadata inputs attempt process_type = do
    rid ← required run_id "run_id"
    pid ← required process_id "process_id"
    s ← status state "status" process_statuses
    kind ← required process_type "process_type"
    raise_if (not (is_positive attempt)) (journal_error "attempt must be a positive integer")
    i ← encoded end inputs "inputs"
    o ← encoded end output "output"
    e ← encoded end error "error"
    m ← encoded end metadata "metadata"
    ok (record {
      operation = "upsert_process";
      request = field "db_path" (str db) (
          field "run_id" (str rid) (
            field "process_id" (str pid) (
              field "status" (str s) (
                field "process_type" (str kind) (
                  field "attempt" attempt (
                    field "input_json" (str i) (
                      field "output_json" (str o) (
                        field "error_json" (str e)
                          (field "metadata_json" (str m) (field "now" (str now) end))))))))));
    })

  unfoldable pub park_process :
      (run_id process_id : Value) (output error metadata inputs : Option Fields)
      (attempt process_type : Value)
      → Outcome Call
  park_process run_id process_id output error metadata inputs attempt process_type =
      upsert_process run_id process_id (str "waiting") output error metadata inputs attempt
        process_type

  -- `complete_waiting_process`, up to its native call
  unfoldable pub complete_waiting_process :
      (run_id process_id : Value) (blocker_id : Option Value) (output : Option Fields)
      (process_status blocker_status run_status : Value)
      → Outcome Call
  complete_waiting_process run_id process_id blocker_id output process_status blocker_status
        run_status =
      do
        rid ← required run_id "run_id"
        pid ← required process_id "process_id"
        p ← status process_status "process_status" terminal_process_statuses
        r ← status run_status "run_status" terminal_run_statuses
        b ← status blocker_status "blocker_status" terminal_blocker_statuses
        bid ← blocker blocker_id
        text ← encoded (field "completed" (bool true) end) output "output"
        ok (record {
          operation = "complete_waiting_process";
          request = field "db_path" (str db) (
              field "run_id" (str rid) (
                field "process_id" (str pid) (
                  field "process_status" (str p) (
                    field "run_status" (str r) (
                      field "blocker_id" (str bid) (
                        field "has_blocker" (bool (is_some blocker_id)) (
                          field "blocker_status" (str b)
                            (field "output_json" (str text) (field "now" (str now) end)))))))));
        })
