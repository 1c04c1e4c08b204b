-- ===== src/Journal/Limits.antt =====
-- python/fala/read.py: a listing is never cut short.
use fala.Prelude.{
  ℕ, zero, suc, ◌≤◌, ◌≡◌, refl, ◌↔◌, inl, inr, true, List, [], ◌∷◌, arith, length, ltb, Bool-cases,
  String,
}
use fala.Prelude.Int.{pos}
use fala.Python.Outcome.{ok, Error, invert}
use fala.Python.Value.{Value, Fields, str}
use fala.Python.Json.{Platform}
use fala.Inspection.Leases.{rows, is_six}
use fala.Journal.Records.{Record, run_columns, process_columns}
use fala.Journal.Reads.{
  Journal, opened, read_limit, open_journal, take, where_equals, read_all, read_bounded,
  required_run_id, list_runs, list_processes,
}

take_all : (n : ℕ) (rs : List Record) → length rs ≤ n → take n rs ≡ rs
unfolding take
take_all zero [] h = refl
take_all zero (r ∷ rs) h = absurd (omega arith)
take_all (suc n) [] h = refl
take_all (suc n) (r ∷ rs) h = rw (take_all n rs (omega arith)) refl

length-take : (n : ℕ) (rs : List Record) → length (take (suc n) rs) ≤ n → length rs ≤ n
unfolding take
length-take zero [] h = omega arith
length-take zero (r ∷ rs) h = absurd (omega arith)
length-take (suc n) [] h = omega arith
length-take (suc n) (r ∷ rs) h = omega (arith, length-take n rs (omega arith))

-- Both version numbers are 6.
abbrev pub IsVersionSix : Journal → Type 0
IsVersionSix j = (is_six j.user_version ≡ true) × (is_six j.migration ≡ true)

-- A limit that is accepted and that the rows fit.
abbrev pub IsWithin : ℕ → List Record → Type 0
IsWithin n table = (1 ≤ n) × (n ≤ 100000) × (length table ≤ n)

pub read_limit_lem :
    (n m : ℕ) → (read_limit (rows (pos n)) ≡ ok m) ↔ ((1 ≤ n) × (n ≤ 100000) × (m ≡ n))
unfolding read_limit
read_limit_lem n m = ((λ h. ground arith), (λ h. ground arith))

open_journal_lem : (j k : Journal) → (open_journal (opened j) ≡ ok k) ↔ (IsVersionSix j × (k ≡ j))
unfolding open_journal
open_journal_lem j k = ((λ h. ground arith), (λ h. ground arith))

module _ ⦃platform : Platform⦄ where
  read_bounded_sound :
      (columns : List String) (n : ℕ) (e : Error) (table : List Record) (out : List Fields)
      → read_bounded columns n e table ≡ ok out
      → (length table ≤ n) × (read_all columns table ≡ ok out)
  unfolding read_bounded
  read_bounded_sound columns n e table out h =
      elim (Bool-cases (ltb n (length (take (suc n) table)))) [
        | inl over ↦ absurd (cc (rw over at h))
        | inr under ↦
            let fits : length table ≤ n = length-take n table (ground (arith, under)) in
            (fits, rw (under, take_all (suc n) table (omega (arith, fits))) at h)
      ]

  read_bounded_complete :
      (columns : List String) (n : ℕ) (e : Error) (table : List Record) (out : List Fields)
      → (length table ≤ n) × (read_all columns table ≡ ok out)
      → read_bounded columns n e table ≡ ok out
  unfolding read_bounded
  read_bounded_complete columns n e table out (fits, h) =
      rw (take_all (suc n) table (omega (arith, fits))) (ground (arith, fits, h))

  -- With a numeric limit and a journal that opens, `list_runs` returns exactly when the limit is from 1
  -- through 100000, both version numbers are 6, the runs fit the limit and each of them can be read; it
  -- then returns all of them, in their order.
  pub list_runs_iff :
      (j : Journal) (n : ℕ) (out : List Fields)
      → (list_runs (opened j) (rows (pos n)) ≡ ok out)
        ↔ (IsWithin n j.runs × IsVersionSix j × (read_all run_columns j.runs ≡ ok out))
  unfolding list_runs
  list_runs_iff j n out = (
    (λ h. invert (read_limit (rows (pos n))) _ h λ limit p h₁.
        invert (open_journal (opened j)) _ h₁ λ k q h₂.
          let (low, high, same) = (read_limit_lem n limit).0 p in
          let (six, this) = (open_journal_lem j k).0 q in
          let (fits, all) = read_bounded_sound run_columns n _ j.runs out (rw (same, this) at h₂) in
          ((low, high, fits), six, all)),
    (λ ((low, high, fits), six, all).
        rw ((read_limit_lem n n).1 (low, high, refl), (open_journal_lem j j).1 (six, refl))
          (read_bounded_complete run_columns n _ j.runs out (fits, all))),
  )

  required_run_id_lem : (v : Value) (s : String) → required_run_id v ≡ ok s → v ≡ str s
  unfolding required_run_id
  required_run_id_lem (str t) s h = ground (arith, h)
  required_run_id_lem _ s h = absurd (cc h)

  -- With a numeric limit and a journal that opens, whatever `list_processes` returns is the whole list
  -- of the run's processes: the run's id was a text, the limit is from 1 through 100000, the processes
  -- fit it, both version numbers are 6, and each process was read.
  pub list_processes_all :
      (j : Journal) (v : Value) (n : ℕ) (out : List Fields)
      → list_processes (opened j) v (rows (pos n)) ≡ ok out
      → (s : String) × (v ≡ str s)
        × IsWithin n (where_equals "run_id" s j.processes)
        × IsVersionSix j
        × (read_all process_columns (where_equals "run_id" s j.processes) ≡ ok out)
  unfolding list_processes
  list_processes_all j v n out h = invert (required_run_id v) _ h λ s r h₀.
      invert (read_limit (rows (pos n))) _ h₀ λ limit p h₁.
        invert (open_journal (opened j)) _ h₁ λ k q h₂.
          let (low, high, same) = (read_limit_lem n limit).0 p in
          let (six, this) = (open_journal_lem j k).0 q in
          let (fits, all) =
            read_bounded_sound process_columns n _ (where_equals "run_id" s j.processes) out
              (rw (same, this) at h₂) in
          (s, required_run_id_lem v s r, (low, high, fits), six, all)
