-- ===== src/Rehearsal/Database.antt =====
-- python/fala/rehearsal.py: `_database_identity`. A file is the list of its bytes, and hashing it is a
-- parameter.
use fala.Prelude.{
  ℕ, zero, suc, String, Bool, true, false, ◌&&◌, List, [], ◌∷◌, if◌then◌else◌, length, leb, eqb,
}
use fala.Python.Value.{Fields, str, pop, put}
use fala.Rehearsal.Snapshot.{Seen, missing, file, identity_of}

-- b"SQLite format 3\x00"
abbrev pub magic : List ℕ
magic = 83 ∷ 81 ∷ 76 ∷ 105 ∷ 116 ∷ 101 ∷ 32 ∷ 102 ∷ 111 ∷ 114 ∷ 109 ∷ 97 ∷ 116 ∷ 32 ∷ 51 ∷ 0 ∷ []

-- `content[:len(start)] == start`
unfoldable pub begins : (start content : List ℕ) → Bool
begins [] content = true
begins (b ∷ bs) [] = false
begins (b ∷ bs) (d ∷ ds) = eqb d b && begins bs ds

-- `content[skip : skip + count] = b"\x00" * count`, inside the content
unfoldable pub blank : (skip count : ℕ) → List ℕ → List ℕ
blank skip count [] = []
blank (suc skip) count (d ∷ ds) = d ∷ blank skip count ds
blank zero (suc count) (d ∷ ds) = 0 ∷ blank zero count ds
blank zero zero (d ∷ ds) = d ∷ ds

-- The content without the counters of SQLite's header.
unfoldable pub without_counters : List ℕ → List ℕ
unfolding begins blank
without_counters content =
    if leb 100 (length content) && begins magic content
    then blank 92 4 (blank 24 4 content)
    else content

-- `_database_identity`
unfoldable pub database_identity : (List ℕ → String) → Seen → List ℕ → Fields
unfolding without_counters
database_identity sha256 missing content = identity_of missing
database_identity sha256 (file d i n t h) content =
    pop "mtime_ns"
      (put "sha256" (str (sha256 (without_counters content))) (identity_of (file d i n t h)))
