-- ===== src/Inspection/Tests.antt =====
-- A calendar of three days, and a journal with one running process. The property of the inspection is
-- applied to it.
use fala.Prelude.{
  ◌≡◌, refl, ◌↔◌, String, ◌==◌, true, false, Option, none, some, List, [], ◌∷◌, if◌then◌else◌,
}
use fala.Prelude.Int.{pos}
use fala.Python.Outcome.{ok}
use fala.Python.Tests.{echo_platform}
use fala.Inspection.Clock.{Calendar, Moment, text, utc}
use fala.Inspection.Rows.{Cell, null, integer, Row, inspect_row}
use fala.Inspection.Leases.{Database, rows, readable, inspect_leases}
use fala.Inspection.Partition.{IsSorted, inspect_leases-IsSorted}
use fala.Inspection.Census.{lease_count, running_count, complete-lease_count}
use fala.Inspection.Complete.{IsInspectable, inspect_leases-complete_iff}

abbrev day_of : String → Option Moment
day_of s =
    if s == "monday+00:00"
    then some (record { instant = some (pos 1); aware = true })
    else if s == "tuesday+00:00"
    then some (record { instant = some (pos 2); aware = true })
    else none

abbrev week : Calendar
week = record { from_iso = day_of; stamp = λ n. ""; now = pos 3 }

abbrev running_row : Row
running_row = record {
  run_id = Cell.text "run";
  process_id = Cell.text "process";
  status = Cell.text "running";
  owner = Cell.text "worker";
  expires = Cell.text "tuesdayZ";
  attempt = integer (pos 1);
  max_attempts = integer (pos 3);
  run_status = Cell.text "active";
}

-- the same process without an owner
abbrev orphan_row : Row
orphan_row = record running_row { owner = null }

abbrev journal_of : List Row → Database
journal_of rs = record {
  schema_version = some (integer (pos 6));
  user_version = some (integer (pos 6));
  process_rows = rs;
}

monday_read : utc week (text "mondayZ") ≡ ok (pos 1)
unfolding utc
monday_read = refl

running_complete :
    (inspect_leases week
      (text "mondayZ")
      (rows (pos 1))
      (readable (journal_of (running_row ∷ [])))).complete
    ≡ true
unfolding inspect_leases inspect_row
running_complete = refl

orphan_incomplete :
    (inspect_leases week
      (text "mondayZ")
      (rows (pos 1))
      (readable (journal_of (orphan_row ∷ [])))).complete
    ≡ false
unfolding inspect_leases inspect_row
orphan_incomplete = refl

inspect_leases-complete_iff_example :
    ((inspect_leases week
        (text "mondayZ")
        (rows (pos 1))
        (readable (journal_of (running_row ∷ [])))).complete
      ≡ true)
    ↔ IsInspectable week 1 (journal_of (running_row ∷ []))
inspect_leases-complete_iff_example =
    inspect_leases-complete_iff week (text "mondayZ") 0 (journal_of (running_row ∷ [])) monday_read

inspect_leases-IsSorted_example :
    IsSorted (pos 1) (
      inspect_leases week
        (text "mondayZ")
        (rows (pos 1))
        (readable (journal_of (running_row ∷ []))))
inspect_leases-IsSorted_example =
    inspect_leases-IsSorted week (text "mondayZ") (rows (pos 1))
      (readable (journal_of (running_row ∷ []))) monday_read

complete-lease_count_example :
    lease_count (
      inspect_leases week
        (text "mondayZ")
        (rows (pos 1))
        (readable (journal_of (running_row ∷ []))))
    ≡ running_count (running_row ∷ [])
complete-lease_count_example =
    complete-lease_count week (text "mondayZ") 0 (journal_of (running_row ∷ [])) monday_read
      running_complete
