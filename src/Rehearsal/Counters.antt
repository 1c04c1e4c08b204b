-- ===== src/Rehearsal/Counters.antt =====
-- python/fala/rehearsal.py: the identity of a database does not change with the counters in its header.
use mathlib.Core.Path.{subst}
use fala.Prelude.{
  ℕ, zero, suc, String, true, ◌&&◌, List, [], ◌∷◌, ◌≡◌, refl, ap, ◌∙◌, length, leb, eqb,
}
use fala.Python.Value.{str, pop, put}
use fala.Rehearsal.Snapshot.{Seen, missing, file, identity_of}
use fala.Rehearsal.Database.{magic, begins, blank, without_counters, database_identity}

-- the content with other bytes from a place on
abbrev pub overwrite : (skip : ℕ) → (bytes content : List ℕ) → List ℕ
overwrite skip bytes [] = []
overwrite (suc skip) bytes (d ∷ ds) = d ∷ overwrite skip bytes ds
overwrite zero (b ∷ bs) (d ∷ ds) = b ∷ overwrite zero bs ds
overwrite zero [] (d ∷ ds) = d ∷ ds

-- a sum that computes at a successor
abbrev past : ℕ → ℕ → ℕ
past zero n = n
past (suc m) n = suc (past m n)

length-overwrite :
    (skip : ℕ) (bytes content : List ℕ) → length (overwrite skip bytes content) ≡ length content
length-overwrite skip bytes [] = refl
length-overwrite (suc skip) bytes (d ∷ ds) = ap suc (length-overwrite skip bytes ds)
length-overwrite zero (b ∷ bs) (d ∷ ds) = ap suc (length-overwrite zero bs ds)
length-overwrite zero [] (d ∷ ds) = refl

begins-overwrite :
    (start : List ℕ) (more : ℕ) (bytes content : List ℕ)
    → begins start (overwrite (past (length start) more) bytes content) ≡ begins start content
unfolding begins
begins-overwrite [] more bytes content = refl
begins-overwrite (s ∷ ss) more bytes [] = refl
begins-overwrite (s ∷ ss) more bytes (d ∷ ds) =
    ap (λ b. eqb d s && b) (begins-overwrite ss more bytes ds)

blank-overwrite :
    (skip : ℕ) (bytes content : List ℕ)
    → blank skip (length bytes) (overwrite skip bytes content) ≡ blank skip (length bytes) content
unfolding blank
blank-overwrite skip bytes [] = refl
blank-overwrite (suc skip) bytes (d ∷ ds) = ap (λ xs. d ∷ xs) (blank-overwrite skip bytes ds)
blank-overwrite zero (b ∷ bs) (d ∷ ds) = ap (λ xs. 0 ∷ xs) (blank-overwrite zero bs ds)
blank-overwrite zero [] (d ∷ ds) = refl

blank-none : (content : List ℕ) → blank 0 0 content ≡ content
unfolding blank
blank-none [] = refl
blank-none (d ∷ ds) = refl

-- Places that are further on do not matter to what is blanked before them.
blank-overwrite_apart :
    (skip count more : ℕ) (bytes content : List ℕ)
    → blank skip count (overwrite (past skip (past count more)) bytes content)
      ≡ overwrite (past skip (past count more)) bytes (blank skip count content)
unfolding blank
blank-overwrite_apart skip count more bytes [] = refl
blank-overwrite_apart (suc skip) count more bytes (d ∷ ds) =
    ap (λ xs. d ∷ xs) (blank-overwrite_apart skip count more bytes ds)
blank-overwrite_apart zero (suc count) more bytes (d ∷ ds) =
    ap (λ xs. 0 ∷ xs) (blank-overwrite_apart zero count more bytes ds)
blank-overwrite_apart zero zero more bytes (d ∷ ds) = blank-none (overwrite more bytes (d ∷ ds))

-- A file in which other bytes stand at the two counters.
abbrev pub recounted : (version changes content : List ℕ) → List ℕ
recounted version changes content = overwrite 24 version (overwrite 92 changes content)

module _ (version changes : List ℕ) (four : length version ≡ 4)
    (four_more : length changes ≡ 4) where
  length-recounted :
      (content : List ℕ) → length (recounted version changes content) ≡ length content
  length-recounted content =
      length-overwrite 24 version (overwrite 92 changes content)
      ∙ length-overwrite 92 changes content

  begins-recounted :
      (content : List ℕ) → begins magic (recounted version changes content) ≡ begins magic content
  begins-recounted content =
      begins-overwrite magic 8 version (overwrite 92 changes content)
      ∙ begins-overwrite magic 76 changes content

  blank-version : (xs : List ℕ) → blank 24 4 (overwrite 24 version xs) ≡ blank 24 4 xs
  blank-version xs =
      subst (λ n. blank 24 n (overwrite 24 version xs) ≡ blank 24 n xs) four
        (blank-overwrite 24 version xs)

  blank-changes : (xs : List ℕ) → blank 92 4 (overwrite 92 changes xs) ≡ blank 92 4 xs
  blank-changes xs =
      subst (λ n. blank 92 n (overwrite 92 changes xs) ≡ blank 92 n xs) four_more
        (blank-overwrite 92 changes xs)

  blank-recounted :
      (content : List ℕ)
      → blank 92 4 (blank 24 4 (recounted version changes content))
        ≡ blank 92 4 (blank 24 4 content)
  blank-recounted content =
      ap (blank 92 4) (
        blank-version (overwrite 92 changes content)
        ∙ blank-overwrite_apart 24 4 64 changes content)
      ∙ blank-changes (blank 24 4 content)

  without_counters-recounted :
      (content : List ℕ)
      → leb 100 (length content) ≡ true
      → begins magic content ≡ true
      → without_counters (recounted version changes content) ≡ without_counters content
  unfolding without_counters
  without_counters-recounted content long sound =
      let longer = ap (leb 100) (length-recounted content) ∙ long in
      let sounder = begins-recounted content ∙ sound in
      rw (longer, sounder, long, sound) (blank-recounted content)

  -- The identity of a database is the same whatever four bytes stand at each of the two counters in its
  -- header, if it is a database: a file of at least 100 bytes that begins as SQLite's do.
  pub database_identity-recounted :
      (sha256 : List ℕ → String) (seen : Seen) (content : List ℕ)
      → leb 100 (length content) ≡ true
      → begins magic content ≡ true
      → database_identity sha256 seen (recounted version changes content)
        ≡ database_identity sha256 seen content
  unfolding database_identity
  database_identity-recounted sha256 missing content long sound = refl
  database_identity-recounted sha256 (file d i n t h) content long sound =
      ap (λ c. pop "mtime_ns" (put "sha256" (str (sha256 c)) (identity_of (file d i n t h))))
        (without_counters-recounted content long sound)
