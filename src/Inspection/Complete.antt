-- ===== src/Inspection/Complete.antt =====
-- An inspection is complete exactly when every row of the journal can be accounted for.
use fala.Prelude.{
  ℕ, suc, ◌≤◌, ◌≡◌, refl, ◌∙◌, ◌↔◌, Bool, true, false, inl, inr, List, some, arith, length, Each,
  Bool-cases, not, ◌||◌,
}
use fala.Prelude.Int.{ℤ, pos}
use fala.Python.Outcome.{ok}
use fala.Python.Json.{Platform}
use fala.Inspection.Clock.{Calendar, Now, utc}
use fala.Inspection.Rows.{Row}
use fala.Inspection.Leases.{
  Inspection, Database, rows, readable, envelope, read_rows, is_six, scanned, row_limit_exceeded,
  inspect_database, inspect_leases, with_error,
}
use fala.Inspection.Accounting.{
  IsAccounted, inspect_rows-errors, inspect_rows-clean, read_rows_all, read_rows_more,
}

module _ ⦃platform : Platform⦄ (calendar : Calendar) where
  -- The database is of the right version, fits the limit, and each of its rows is accounted for.
  pub record IsInspectable (limit : ℕ) (db : Database) : Type 0 where
    pub schema : is_six db.schema_version ≡ true
    pub version : is_six db.user_version ≡ true
    pub fits : length db.process_rows ≤ limit
    pub accounted : Each (IsAccounted calendar) db.process_rows

  scanned-complete :
      (observed : ℤ) (limit : ℕ) (kept : List Row) (more : Bool) (s : Inspection)
      → s.errors ≡ List.[]
      → s.uncertainty ≡ List.[]
      → ((scanned calendar observed limit (kept, more) s).complete ≡ true)
        ↔ ((more ≡ false) × Each (IsAccounted calendar) kept)
  scanned-complete observed limit kept true s e u =
      let start : Inspection = with_error (row_limit_exceeded limit) s in
      let errors = inspect_rows-errors calendar observed kept start in
      ((λ h. absurd (cc (rw (errors, e) at h))), (λ (h, _). absurd (cc h)))
  scanned-complete observed limit kept false s e u =
      let errors = inspect_rows-errors calendar observed kept s ∙ e in
      let clean = inspect_rows-clean calendar observed kept s in
      ((λ h. (refl, (clean.0 (rw errors at h)).1)), (λ (_, h). rw errors (clean.1 (rw u refl, h))))

  database_sound :
      (observed : ℤ) (limit : ℕ) (db : Database) (s : Inspection)
      → s.errors ≡ List.[]
      → s.uncertainty ≡ List.[]
      → s.complete ≡ false
      → (inspect_database calendar observed limit db s).complete ≡ true
      → IsInspectable limit db
  unfolding inspect_database
  database_sound observed limit db s e u f h =
      elim (Bool-cases (not (is_six db.schema_version) || not (is_six db.user_version))) [
        | inl bad ↦ absurd (cc (f, rw bad at h))
        | inr good ↦
            let (kept, more) = read_rows limit db.process_rows in
            let found = (scanned-complete observed limit kept more s e u).0 (rw good at h) in
            let fits = read_rows_more limit db.process_rows found.0 in
            record {
              schema = ground (arith, good);
              version = ground (arith, good);
              fits = fits;
              accounted = rw (read_rows_all limit db.process_rows fits) at found.1;
            }
      ]

  database_complete :
      (observed : ℤ) (limit : ℕ) (db : Database) (s : Inspection)
      → s.errors ≡ List.[]
      → s.uncertainty ≡ List.[]
      → IsInspectable limit db
      → (inspect_database calendar observed limit db s).complete ≡ true
  unfolding inspect_database
  database_complete observed limit db s e u i =
      rw (i.schema, i.version, read_rows_all limit db.process_rows i.fits)
        ((scanned-complete observed limit db.process_rows false s e u).1 (refl, i.accounted))

  -- At a time that can be read and a positive limit, an inspection of a readable database is complete
  -- exactly when both version numbers are 6, the rows fit the limit, and every row is well formed and
  -- either needs no lease and has none, or runs under a whole lease of an active run.
  pub inspect_leases-complete_iff :
      (now : Now) (n : ℕ) (db : Database) {observed : ℤ}
      → utc calendar now ≡ ok observed
      → ((inspect_leases calendar now (rows (pos (suc n))) (readable db)).complete ≡ true)
        ↔ IsInspectable (suc n) db
  unfolding inspect_leases
  inspect_leases-complete_iff now n db {observed} e =
      let start : Inspection = record envelope { observed_at = some observed } in
      rw e (
        database_sound observed (suc n) db start refl refl refl,
        database_complete observed (suc n) db start refl refl,
      )
