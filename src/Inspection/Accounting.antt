-- ===== src/Inspection/Accounting.antt =====
-- Which rows an inspection can account for, and what its two loops do with the others.
use fala.Prelude.{
  ℕ, zero, suc, ◌≤◌, ◌≡◌, refl, ◌∙◌, ◌↔◌, ◌⊎◌, String, Bool, true, false, not, ◌&&◌, ◌||◌, List, [],
  ◌∷◌, ◌++◌, arith, length, Each,
}
use fala.Prelude.Int.{ℤ, pos}
use fala.Python.Outcome.{Outcome, ok, raise, is_ok}
use fala.Python.Json.{Platform}
use fala.Inspection.Clock.{Calendar}
use fala.Inspection.Rows.{
  Row, Issue, Verdict, uncertain, unleased, current, expired, malformed, inspect_row, inspect_sound,
  is_name, is_null, is_one_of, is_at_least, exceeds, is_text, process_statuses, run_statuses,
  expiry_of, noted, judged, leased,
}
use fala.Inspection.Leases.{Inspection, read_rows, record_verdict, inspect_rows, is_empty}

abbrev is_certain : Verdict → Bool
is_certain (uncertain _) = false
is_certain _ = true

-- The columns of a row have the types and the ranges that the schema promises.
pub record IsWellFormed (r : Row) : Type 0 where
  pub run_named : is_name r.run_id ≡ true
  pub process_named : is_name r.process_id ≡ true
  pub status_known : is_one_of process_statuses r.status ≡ true
  pub run_status_known : is_one_of run_statuses r.run_status ≡ true
  pub owner_named : is_null r.owner || is_name r.owner ≡ true
  pub expiry_named : is_null r.expires || is_name r.expires ≡ true
  pub attempt_natural : is_at_least (pos 0) r.attempt ≡ true
  pub max_attempts_positive : is_at_least (pos 1) r.max_attempts ≡ true
  pub attempts_left : exceeds r.attempt r.max_attempts ≡ false

noted-nil :
    (b : Bool) (m : String) (rest : List String) → noted b m rest ≡ [] → (b ≡ false) × (rest ≡ [])
noted-nil true m rest h = absurd (cc h)
noted-nil false m rest h = (refl, h)

noted-append :
    (b : Bool) (m : String) (rest : List String) → b ≡ false → rest ≡ [] → noted b m rest ≡ []
noted-append true m rest h k = absurd (cc h)
noted-append false m rest h k = k

not-false : (b : Bool) → (not b ≡ false) ↔ (b ≡ true)
not-false b = ground arith

neither : (a b : Bool) → (not a && not b ≡ false) ↔ (a || b ≡ true)
neither a b = ground arith

pub malformed-nil : (r : Row) → malformed r ≡ [] → IsWellFormed r
unfolding malformed
malformed-nil r h =
    let (a, h₁) = noted-nil _ _ _ h in
    let (b, h₂) = noted-nil _ _ _ h₁ in
    let (c, h₃) = noted-nil _ _ _ h₂ in
    let (d, h₄) = noted-nil _ _ _ h₃ in
    let (e, h₅) = noted-nil _ _ _ h₄ in
    let (f, h₆) = noted-nil _ _ _ h₅ in
    let (g, h₇) = noted-nil _ _ _ h₆ in
    let (i, h₈) = noted-nil _ _ _ h₇ in
    let (j, _) = noted-nil _ _ _ h₈ in
    record {
      run_named = (not-false _).0 a;
      process_named = (not-false _).0 b;
      status_known = (not-false _).0 c;
      run_status_known = (not-false _).0 d;
      owner_named = (neither (is_null r.owner) (is_name r.owner)).0 e;
      expiry_named = (neither (is_null r.expires) (is_name r.expires)).0 f;
      attempt_natural = (not-false _).0 g;
      max_attempts_positive = (not-false _).0 i;
      attempts_left = j;
    }

pub IsWellFormed-malformed : (r : Row) → IsWellFormed r → malformed r ≡ []
unfolding malformed
IsWellFormed-malformed r w = noted-append _ _ _ ((not-false _).1 w.run_named) (
    noted-append _ _ _ ((not-false _).1 w.process_named) (
      noted-append _ _ _ ((not-false _).1 w.status_known) (
        noted-append _ _ _ ((not-false _).1 w.run_status_known) (
          noted-append _ _ _ ((neither (is_null r.owner) (is_name r.owner)).1 w.owner_named) (
            noted-append _ _ _ ((neither (is_null r.expires) (is_name r.expires)).1 w.expiry_named)
              (noted-append _ _ _ ((not-false _).1 w.attempt_natural) (
                noted-append _ _ _ ((not-false _).1 w.max_attempts_positive)
                  (noted-append _ _ _ w.attempts_left refl))))))))

module _ ⦃platform : Platform⦄ (calendar : Calendar) where
  -- A row that needs no lease and has none, or that is running under a lease of an active run whose
  -- expiry can be read.
  abbrev pub HasItsLease : Row → Type 0
  HasItsLease r =
      ((is_text "running" r.status ≡ false) × (is_null r.owner ≡ true) × (is_null r.expires ≡ true))
      ⊎ ((is_text "running" r.status ≡ true)
          × (is_null r.owner ≡ false)
          × (is_null r.expires ≡ false)
          × (is_text "active" r.run_status ≡ true)
          × (is_ok (expiry_of calendar r.expires) ≡ true))

  leased-certain :
      (observed : ℤ) (r : Row) (o : Outcome ℤ) → is_certain (leased calendar observed r o) ≡ is_ok o
  leased-certain observed r (ok expiry) = ground arith
  leased-certain observed r (raise e) = refl

  inspect_sound-certain :
      (observed : ℤ) (r : Row)
      → (is_certain (inspect_sound calendar observed r) ≡ true) ↔ HasItsLease r
  unfolding inspect_sound
  inspect_sound-certain observed r =
      ground (arith, leased-certain observed r (expiry_of calendar r.expires))

  -- Nothing about the row is uncertain.
  abbrev pub IsAccounted : Row → Type 0
  IsAccounted r = IsWellFormed r × HasItsLease r

  judged-certain :
      (observed : ℤ) (r : Row) (problems : List String)
      → malformed r ≡ problems
      → (is_certain (judged calendar observed r problems) ≡ true) ↔ IsAccounted r
  judged-certain observed r [] e = (
    (λ h. (malformed-nil r e, (inspect_sound-certain observed r).0 h)),
    (λ (_, h). (inspect_sound-certain observed r).1 h),
  )
  judged-certain observed r (p ∷ ps) e =
      ((λ h. absurd (cc h)), (λ (w, _). absurd (cc (e, IsWellFormed-malformed r w))))

  inspect_row-certain :
      (observed : ℤ) (r : Row)
      → (is_certain (inspect_row calendar observed r) ≡ true) ↔ IsAccounted r
  unfolding inspect_row
  inspect_row-certain observed r = judged-certain observed r (malformed r) refl

  record_verdict-clean :
      (v : Verdict) (s : Inspection)
      → (is_empty (record_verdict v s).uncertainty ≡ true)
        ↔ ((is_empty s.uncertainty ≡ true) × (is_certain v ≡ true))
  record_verdict-clean (uncertain issue) s =
      ((λ h. absurd (append_nonempty s.uncertainty h)), (λ (_, h). absurd (cc h)))
    where
      append_nonempty : (xs : List Issue) → is_empty (xs ++ issue ∷ []) ≡ true → ⊥
      append_nonempty [] h = cc h
      append_nonempty (x ∷ xs) h = cc h
  record_verdict-clean unleased s = ((λ h. (h, refl)), (λ (h, _). h))
  record_verdict-clean (current lease) s = ((λ h. (h, refl)), (λ (h, _). h))
  record_verdict-clean (expired lease) s = ((λ h. (h, refl)), (λ (h, _). h))

  record_verdict-errors : (v : Verdict) (s : Inspection) → (record_verdict v s).errors ≡ s.errors
  record_verdict-errors (uncertain issue) s = refl
  record_verdict-errors _ s = refl

  pub inspect_rows-errors :
      (observed : ℤ) (rs : List Row) (s : Inspection)
      → (inspect_rows calendar observed rs s).errors ≡ s.errors
  unfolding inspect_rows
  inspect_rows-errors observed [] s = refl
  inspect_rows-errors observed (r ∷ rs) s =
      inspect_rows-errors observed rs (record_verdict (inspect_row calendar observed r) s)
      ∙ record_verdict-errors (inspect_row calendar observed r) s

  pub inspect_rows-clean :
      (observed : ℤ) (rs : List Row) (s : Inspection)
      → (is_empty (inspect_rows calendar observed rs s).uncertainty ≡ true)
        ↔ ((is_empty s.uncertainty ≡ true) × Each IsAccounted rs)
  unfolding inspect_rows
  inspect_rows-clean observed [] s = ((λ h. (h, tt)), (λ (h, _). h))
  inspect_rows-clean observed (r ∷ rs) s =
      let v : Verdict = inspect_row calendar observed r in
      let rest = inspect_rows-clean observed rs (record_verdict v s) in
      let here = record_verdict-clean v s in
      let row = inspect_row-certain observed r in
      (
        (λ h. let (a, b) = rest.0 h in let (c, d) = here.0 a in (c, (row.0 d, b))),
        (λ (c, (w, b)). rest.1 (here.1 (c, row.1 w), b)),
      )

pub read_rows_all : (n : ℕ) (rs : List Row) → length rs ≤ n → read_rows n rs ≡ (rs, false)
read_rows_all n [] h = refl
read_rows_all zero (r ∷ rs) h = absurd (omega arith)
read_rows_all (suc n) (r ∷ rs) h = rw (read_rows_all n rs (omega arith))

pub read_rows_more : (n : ℕ) (rs : List Row) → (read_rows n rs).1 ≡ false → length rs ≤ n
read_rows_more n [] h = omega arith
read_rows_more zero (r ∷ rs) h = absurd (cc h)
read_rows_more (suc n) (r ∷ rs) h = omega (arith, read_rows_more n rs h)
