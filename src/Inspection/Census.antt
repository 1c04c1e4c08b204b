-- ===== src/Inspection/Census.antt =====
-- No running process is lost: each is counted once among the leases.
use fala.Prelude.{
  ℕ, suc, ◌+◌, ◌≡◌, refl, inl, inr, true, List, [], ◌∷◌, ◌++◌, some, arith, length, Each,
  if◌then◌else◌,
}
use fala.Prelude.Int.{ℤ, pos}
use fala.Python.Outcome.{Outcome, ok, raise, is_ok}
use fala.Python.Json.{Platform}
use fala.Inspection.Clock.{Calendar, Now, utc}
use fala.Inspection.Rows.{
  Row, Verdict, uncertain, unleased, current, expired, inspect_row, inspect_sound, is_text,
  expiry_of, leased,
}
use fala.Inspection.Leases.{
  Inspection, Database, rows, readable, envelope, record_verdict, inspect_rows, inspect_database,
  inspect_leases,
}
use fala.Inspection.Accounting.{HasItsLease, IsAccounted, IsWellFormed-malformed, read_rows_all}
use fala.Inspection.Complete.{inspect_leases-complete_iff}

-- how many leases an inspection lists
abbrev pub lease_count : Inspection → ℕ
lease_count s = length s.current + length s.expired

-- how many rows are of running processes
abbrev pub running_count : List Row → ℕ
running_count [] = 0
running_count (r ∷ rs) = (if is_text "running" r.status then 1 else 0) + running_count rs

abbrev leases_in : Verdict → ℕ
leases_in (current _) = 1
leases_in (expired _) = 1
leases_in _ = 0

length-snoc {ℓ} : {A : Type ℓ} (xs : List A) (x : A) → length (xs ++ x ∷ []) ≡ suc (length xs)
length-snoc [] x = refl
length-snoc (y ∷ ys) x = omega (arith, length-snoc ys x)

record_verdict-count :
    (v : Verdict) (s : Inspection) → lease_count (record_verdict v s) ≡ leases_in v + lease_count s
record_verdict-count (uncertain issue) s = omega arith
record_verdict-count unleased s = omega arith
record_verdict-count (current l) s = omega (arith, length-snoc s.current l)
record_verdict-count (expired l) s = omega (arith, length-snoc s.expired l)

module _ ⦃platform : Platform⦄ (calendar : Calendar) (observed : ℤ) where
  leased-count :
      (r : Row) (o : Outcome ℤ) → is_ok o ≡ true → leases_in (leased calendar observed r o) ≡ 1
  leased-count r (ok expiry) h = ground arith
  leased-count r (raise e) h = absurd (cc h)

  sound-count :
      (r : Row)
      → HasItsLease calendar r
      → leases_in (inspect_sound calendar observed r)
        ≡ (if is_text "running" r.status then 1 else 0)
  unfolding inspect_sound
  sound-count r (inl (idle, no_owner, no_expiry)) = rw (idle, no_owner, no_expiry) refl
  sound-count r (inr (running, owned, expiring, active, known)) =
      rw (running, owned, expiring, active) (leased-count r (expiry_of calendar r.expires) known)

  row-count :
      (r : Row)
      → IsAccounted calendar r
      → leases_in (inspect_row calendar observed r) ≡ (if is_text "running" r.status then 1 else 0)
  unfolding inspect_row
  row-count r (w, h) = rw (IsWellFormed-malformed r w) (sound-count r h)

  rows-count :
      (rs : List Row) (s : Inspection)
      → Each (IsAccounted calendar) rs
      → lease_count (inspect_rows calendar observed rs s) ≡ running_count rs + lease_count s
  unfolding inspect_rows
  rows-count [] s h = omega arith
  rows-count (r ∷ rs) s (here, rest) =
      let v : Verdict = inspect_row calendar observed r in
      omega
        (arith, rows-count rs (record_verdict v s) rest, record_verdict-count v s, row-count r here)

module _ ⦃platform : Platform⦄ (calendar : Calendar) where
  -- At a time that can be read and a positive limit, a complete inspection of a readable database lists
  -- as many leases, the current and the expired ones together, as the journal has running processes.
  pub complete-lease_count :
      (now : Now) (n : ℕ) (db : Database) {observed : ℤ}
      → utc calendar now ≡ ok observed
      → (inspect_leases calendar now (rows (pos (suc n))) (readable db)).complete ≡ true
      → lease_count (inspect_leases calendar now (rows (pos (suc n))) (readable db))
        ≡ running_count db.process_rows
  unfolding inspect_leases inspect_database
  complete-lease_count now n db {observed} e h =
      let i = (inspect_leases-complete_iff calendar now n db e).0 h in
      rw (e, i.schema, i.version, read_rows_all (suc n) db.process_rows i.fits)
        (omega (
          arith,
          rows-count calendar observed db.process_rows
              (record envelope { observed_at = some observed }) i.accounted,
        ))
