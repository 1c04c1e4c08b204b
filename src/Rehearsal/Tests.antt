-- ===== src/Rehearsal/Tests.antt =====
-- A rehearsal of a small journal with room to spare.
use fala.Prelude.{
  ℕ, zero, suc, ◌+◌, String, ◌≡◌, refl, true, Option, some, List, [], ◌∷◌, ◌++◌, length, leb,
}
use fala.Python.Text.{decimal}
use fala.Prelude.Int.{ℤ, pos, negsuc}
use fala.Python.Number.{Float, whole}
use fala.Python.Outcome.{Outcome, ok}
use fala.Python.Value.{Fields, int, bool, end, field}
use fala.Rehearsal.Database.{magic, begins, database_identity}
use fala.Rehearsal.Counters.{recounted, database_identity-recounted}
use fala.Rehearsal.Policy.{Terms, policy}
use fala.Rehearsal.Snapshot.{missing, file, Files, Filing, Notes}
use fala.Rehearsal.Run.{rehearse_journal_retention}
use fala.Rehearsal.Marked.{IsMarked, rehearse_journal_retention-IsMarked}

abbrev journal : Files
journal = record {
  main = file (pos 1) (pos 7) (pos 4096) (pos 5) "d";
  wal = missing;
  shm = missing;
}

abbrev filed : Filing
filed = record { opened = ok tt; filled = ok tt }

abbrev notes : Notes
notes = record {
  source_found = ok tt;
  output_made = ok tt;
  marker_file = filed;
  before = journal;
  free_pre = 90000000;
  snapshot_file = filed;
  reserved = (pos 1, pos 8);
  current = (pos 1, pos 8);
  normalized = ok tt;
  integrity = "ok" ∷ [];
  foreign_keys = [];
  free_post = 80000000;
  snapshot_before = field "present" (bool true) end;
  dry_plan = ok (field "ok" (bool true) end);
  normalized_again = ok tt;
  snapshot_after = field "present" (bool true) end;
  post_integrity = "ok" ∷ [];
  post_foreign_keys = [];
  after = journal;
  plan_file = filed;
  marker_removed = ok tt;
  directory_synced = ok tt;
  created_at = "2026-01-01T00:00:00+00:00";
  source = "/journal.sqlite";
  output = "/plan";
}

abbrev terms : Terms
terms = record { age = whole (pos 30); keep = negsuc 0; margin = pos 16777216 }

abbrev exactly : ℤ → Option Float
exactly n = some (whole n)

terms_accepted : policy exactly (field "older_than_days" (int (pos 30)) end) ≡ ok terms
unfolding policy
terms_accepted = refl

abbrev spell : Fields → Outcome String
spell fs = ok "{}"

rehearse_journal_retention-IsMarked_example :
    IsMarked terms notes (
      rehearse_journal_retention spell exactly
        (field "older_than_days" (int (pos 30)) end)
        notes
        [])
rehearse_journal_retention-IsMarked_example =
    rehearse_journal_retention-IsMarked spell exactly (field "older_than_days" (int (pos 30)) end)
      notes terms terms_accepted refl refl refl

abbrev total : List ℕ → ℕ
total [] = 0
total (b ∷ bs) = b + total bs

-- a hash that every byte counts in
abbrev checksum : List ℕ → String
checksum content = decimal (total content)

abbrev zeros : ℕ → List ℕ
zeros zero = []
zeros (suc n) = 0 ∷ zeros n

-- the first page of a database, as far as its header goes
abbrev header : List ℕ
header = magic ++ zeros 84

header_long : leb 100 (length header) ≡ true
header_long = refl

header_sound : begins magic header ≡ true
unfolding begins
header_sound = refl

database_identity-recounted_example :
    database_identity checksum
      (file (pos 1) (pos 2) (pos 100) (pos 7) "g")
      (recounted (0 ∷ 0 ∷ 0 ∷ 9 ∷ []) (0 ∷ 0 ∷ 0 ∷ 8 ∷ []) header)
    ≡ database_identity checksum (file (pos 1) (pos 2) (pos 100) (pos 7) "g") header
database_identity-recounted_example =
    database_identity-recounted (0 ∷ 0 ∷ 0 ∷ 9 ∷ []) (0 ∷ 0 ∷ 0 ∷ 8 ∷ []) refl refl checksum
      (file (pos 1) (pos 2) (pos 100) (pos 7) "g") header header_long header_sound
