-- ===== src/Inspection/Report.antt =====
-- python/fala/inspection.py: the document that `inspect_leases` returns: `_json_safe` on a whole
-- result, `_issue` and `_finish`.
use fala.Prelude.{Option, none, some, map, if◌then◌else◌}
use fala.Prelude.Int.{ℤ, pos}
use fala.Python.Outcome.{Outcome, ok, ◌>>=◌}
use fala.Python.Number.{is_finite}
use fala.Python.Value.{
  Value, Items, Fields, null, bool, int, float, str, list, dict, nil, item, end, field, items_of,
}
use fala.Python.Json.{Platform, spaced, dumps}
use fala.Inspection.Clock.{Calendar}
use fala.Inspection.Rows.{Issue, Lease, json_safe}
use fala.Inspection.Leases.{Inspection}

-- `result["semantics"]`
abbrev pub semantics : Value
semantics = dict (
    field "run" (str "context_only_not_leased") (
      field "process" (str "claimed_while_status_running_with_owner_and_expiry")
        (field "reaction" (str "durable_artifact_not_leased") end)))

-- The keys of a context are none of "code" and "message".
abbrev pub issue_value : Issue → Value
issue_value i = dict (field "code" (str i.code) (field "message" (str i.message) i.context))

module _ ⦃platform : Platform⦄ where
  -- `_json_safe`, on a value whose cells are safe or are floats
  unfoldable mutual
    pub safe_tree : Value → Value
    safe_tree null = null
    safe_tree (bool b) = bool b
    safe_tree (int n) = int n
    safe_tree (float x) = if is_finite x then float x else str (platform.text_of (float x))
    safe_tree (str s) = str s
    safe_tree (list vs) = list (safe_branches vs)
    safe_tree (dict fs) = dict (safe_entries fs)

    pub safe_branches : Items → Items
    safe_branches nil = nil
    safe_branches (item v vs) = item (safe_tree v) (safe_branches vs)

    pub safe_entries : Fields → Fields
    safe_entries end = end
    safe_entries (field k v fs) = field k (safe_tree v) (safe_entries fs)

module _ ⦃platform : Platform⦄ (calendar : Calendar) where
  abbrev pub observed_value : Option ℤ → Value
  observed_value none = null
  observed_value (some n) = str (calendar.stamp n)

  -- An entry of "current" or "expired", as `_finish` leaves it: a `Lease` holds the raw cells of the dict that
  -- the loop appends, and this is what `_json_safe` makes of that dict.
  unfoldable pub lease_value : Lease → Value
  lease_value l = dict (
      field "kind" (str "process") (
        field "run_id" (json_safe l.run_id) (
          field "process_id" (json_safe l.process_id) (
            field "owner" (json_safe l.owner) (
              field "lease_expires_at" (str (calendar.stamp l.expiry)) (
                field "attempt" (json_safe l.attempt) (
                  field "max_attempts" (json_safe l.max_attempts) (
                    field "process_status" (json_safe l.status)
                      (field "run_status" (json_safe l.run_status) end)))))))))

  -- the dict that the result is
  unfoldable pub report : Inspection → Value
  unfolding lease_value
  report r = dict (
      field "version" (int (pos 1)) (
        field "schema_version" (int (pos 6)) (
          field "observed_at" (observed_value r.observed_at) (
            field "semantics" semantics (
              field "current" (list (items_of (map lease_value r.current))) (
                field "expired" (list (items_of (map lease_value r.expired))) (
                  field "uncertainty" (list (items_of (map issue_value r.uncertainty))) (
                    field "errors" (list (items_of (map issue_value r.errors)))
                      (field "complete" (bool r.complete) end)))))))))

  -- `_finish`. The text is made for the exception that making it might raise.
  abbrev pub finish_with : Value → Outcome Value
  finish_with safe = do text ← dumps spaced safe; ok safe

  unfoldable pub finish : Inspection → Outcome Value
  finish r = finish_with (safe_tree (report r))
