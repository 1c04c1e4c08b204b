-- ===== src/Inspection/Safe.antt =====
-- python/fala/inspection.py: every inspection has a document in JSON.
use fala.Prelude.{
  ◌≡◌, refl, String, Bool, true, false, List, [], ◌∷◌, arith, if◌then◌else◌, not, ◌||◌,
}
use mathlib.Core.Path.{ap₂}
use fala.Prelude.Int.{ℤ, ltb_ℤ}
use fala.Python.Number.{finite, infinity, minus_infinity, nan}
use fala.Python.Outcome.{Outcome, ok, raise, is_ok}
use fala.Python.Value.{
  Value, Items, Fields, null, bool, int, float, str, list, dict, nil, item, end, field,
}
use fala.Python.Json.{Platform, spaced, dumps, dumps_items, dumps_fields}
use fala.Inspection.Clock.{Calendar}
use fala.Inspection.Rows.{
  Cell, integer, real, blob, json_safe, Issue, Row, row_context, malformed_row, Verdict, uncertain,
  leased, inspect_sound, expiry_of, judged, inspect_row, malformed, is_null, is_text,
}
use fala.Inspection.Report.{safe_tree, safe_branches, safe_entries}

module _ ⦃platform : Platform⦄ where
  -- What `_json_safe` returns can be spelled, whatever it was given.
  mutual
    unfolding safe_tree dumps

    pub safe_tree-spelled : (v : Value) → is_ok (dumps spaced (safe_tree v)) ≡ true
    safe_tree-spelled null = refl
    safe_tree-spelled (bool b) = refl
    safe_tree-spelled (int n) = refl
    safe_tree-spelled (str s) = refl
    safe_tree-spelled (float (finite m k)) = refl
    safe_tree-spelled (float infinity) = refl
    safe_tree-spelled (float minus_infinity) = refl
    safe_tree-spelled (float nan) = refl
    safe_tree-spelled (list vs) = ground (arith, safe_branches-spelled vs)
    safe_tree-spelled (dict fs) = ground (arith, safe_entries-spelled fs)

    safe_branches-spelled : (vs : Items) → is_ok (dumps_items spaced (safe_branches vs)) ≡ true
    safe_branches-spelled nil = refl
    safe_branches-spelled (item v vs) =
        ground (arith, safe_tree-spelled v, safe_branches-spelled vs)

    safe_entries-spelled : (fs : Fields) → is_ok (dumps_fields spaced (safe_entries fs)) ≡ true
    safe_entries-spelled end = refl
    safe_entries-spelled (field k v fs) =
        ground (arith, safe_tree-spelled v, safe_entries-spelled fs)

  pub json_safe-fixed : (c : Cell) → safe_tree (json_safe c) ≡ json_safe c
  unfolding json_safe safe_tree
  json_safe-fixed Cell.null = refl
  json_safe-fixed (integer n) = refl
  json_safe-fixed (real (finite m k)) = refl
  json_safe-fixed (real infinity) = refl
  json_safe-fixed (real minus_infinity) = refl
  json_safe-fixed (real nan) = refl
  json_safe-fixed (Cell.text s) = refl
  json_safe-fixed (blob hex) = refl

  -- Fields that `_json_safe` leaves as they are.
  abbrev pub AreSafe : Fields → Type 0
  AreSafe fs = safe_entries fs ≡ fs

  pub AreSafe-field :
      (k : String) (c : Cell) (fs : Fields) → AreSafe fs → AreSafe (field k (json_safe c) fs)
  unfolding safe_entries
  AreSafe-field k c fs h = ap₂ (field k) (json_safe-fixed c) h

  abbrev pub IsSafe : Issue → Type 0
  IsSafe i = AreSafe i.context

  row_context-AreSafe : (r : Row) → AreSafe (row_context r)
  unfolding safe_entries
  row_context-AreSafe r =
      AreSafe-field "run_id" r.run_id _ (AreSafe-field "process_id" r.process_id _ refl)

  malformed_row-IsSafe : (r : Row) (problems : List String) → IsSafe (malformed_row r problems)
  unfolding malformed_row
  malformed_row-IsSafe r problems = AreSafe-field "status" r.status _ (
      AreSafe-field "run_status" r.run_status _ (
        AreSafe-field "attempt" r.attempt _ (
          AreSafe-field "max_attempts" r.max_attempts _ (
            AreSafe-field "lease_owner" r.owner _
              (AreSafe-field "lease_expires_at" r.expires _ (row_context-AreSafe r))))))

  -- a verdict whose issue, if it has one, is safe
  abbrev pub IsSafeVerdict : Verdict → Type 0
  IsSafeVerdict (uncertain issue) = IsSafe issue
  IsSafeVerdict _ = Unit

  either :
      (b : Bool) (v w : Verdict)
      → IsSafeVerdict v
      → IsSafeVerdict w
      → IsSafeVerdict (if b then v else w)
  either true v w h k = h
  either false v w h k = k

  module _ (calendar : Calendar) (observed : ℤ) where
    leased-IsSafe : (r : Row) (o : Outcome ℤ) → IsSafeVerdict (leased calendar observed r o)
    leased-IsSafe r (ok expiry) = either (not (ltb_ℤ observed expiry)) _ _ tt tt
    leased-IsSafe r (raise e) = AreSafe-field "lease_expires_at" r.expires _ (row_context-AreSafe r)

    inspect_sound-IsSafe : (r : Row) → IsSafeVerdict (inspect_sound calendar observed r)
    unfolding inspect_sound
    inspect_sound-IsSafe r =
        let context = row_context-AreSafe r in
        let with_status = AreSafe-field "status" r.status _ context in
        let with_run = AreSafe-field "run_status" r.run_status _ context in
        either (not (is_text "running" r.status)) _ _
          (either (not (is_null r.owner) || not (is_null r.expires)) _ _ with_status tt)
          (either (is_null r.owner || is_null r.expires) _ _ context (
            either (not (is_text "active" r.run_status)) _ _ with_run
              (leased-IsSafe r (expiry_of calendar r.expires))))

    judged-IsSafe :
        (r : Row) (problems : List String) → IsSafeVerdict (judged calendar observed r problems)
    judged-IsSafe r [] = inspect_sound-IsSafe r
    judged-IsSafe r (p ∷ ps) = malformed_row-IsSafe r (p ∷ ps)

    pub inspect_row-IsSafe : (r : Row) → IsSafeVerdict (inspect_row calendar observed r)
    unfolding inspect_row
    inspect_row-IsSafe r = judged-IsSafe r (malformed r)
