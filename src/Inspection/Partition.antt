-- ===== src/Inspection/Partition.antt =====
-- Where the rows of a journal end up: which leases are listed as current, which as expired, and that
-- none is lost.
use fala.Prelude.{
  ℕ, ◌≡◌, refl, inl, inr, String, Bool, true, false, not, ◌||◌, Option, some, none, List, [], ◌∷◌,
  arith, Each, Each-snoc, Bool-cases, if◌then◌else◌,
}
use fala.Prelude.Int.{ℤ, ltb_ℤ}
use fala.Python.Outcome.{Outcome, ok, raise}
use fala.Python.Json.{Platform}
use fala.Inspection.Clock.{Calendar, Now, utc}
use fala.Inspection.Rows.{
  Row, Issue, Lease, Verdict, uncertain, unleased, current, expired, malformed, inspect_row,
  inspect_sound, is_name, is_null, exceeds, is_text, expiry_of, judged, leased, lease_of,
}
use fala.Inspection.Leases.{
  Inspection, Database, Source, Limit, readable, unavailable, failing, envelope, read_rows,
  record_verdict, inspect_rows, is_six, inspect_database, inspect_leases, limited, scanned,
  positive_limit, with_error, row_limit_exceeded,
}
use fala.Inspection.Accounting.{IsWellFormed, malformed-nil}

-- A lease on a running process of an active run, with a named owner and an attempt that the process
-- still has.
pub record IsHeld (l : Lease) : Type 0 where
  pub run_named : is_name l.run_id ≡ true
  pub process_named : is_name l.process_id ≡ true
  pub owner_named : is_name l.owner ≡ true
  pub running : is_text "running" l.status ≡ true
  pub active : is_text "active" l.run_status ≡ true
  pub attempts_left : exceeds l.attempt l.max_attempts ≡ false

-- A lease that still holds at the time of the inspection, or that no longer does.
abbrev pub IsCurrent : ℤ → Lease → Type 0
IsCurrent observed l = (ltb_ℤ observed l.expiry ≡ true) × IsHeld l

abbrev pub IsExpired : ℤ → Lease → Type 0
IsExpired observed l = (ltb_ℤ observed l.expiry ≡ false) × IsHeld l

-- Both lists hold what they promise.
abbrev pub IsSorted : ℤ → Inspection → Type 0
IsSorted observed s = Each (IsCurrent observed) s.current × Each (IsExpired observed) s.expired

IsRight : ℤ → Verdict → Type 0
IsRight observed (current l) = IsCurrent observed l
IsRight observed (expired l) = IsExpired observed l
IsRight observed _ = Unit

record_verdict-IsSorted :
    (observed : ℤ) (v : Verdict) (s : Inspection)
    → IsRight observed v
    → IsSorted observed s
    → IsSorted observed (record_verdict v s)
unfolding IsRight
record_verdict-IsSorted observed (uncertain issue) s h k = k
record_verdict-IsSorted observed unleased s h k = k
record_verdict-IsSorted observed (current l) s h (c, e) =
    (Each-snoc (IsCurrent observed) s.current l c h, e)
record_verdict-IsSorted observed (expired l) s h (c, e) =
    (c, Each-snoc (IsExpired observed) s.expired l e h)

module _ ⦃platform : Platform⦄ (calendar : Calendar) (observed : ℤ) where
  leased-IsRight :
      (r : Row) (o : Outcome ℤ)
      → ((n : ℤ) → IsHeld (lease_of r n))
      → IsRight observed (leased calendar observed r o)
  unfolding IsRight
  leased-IsRight r (ok expiry) h = elim (Bool-cases (ltb_ℤ observed expiry)) [
    | inl e ↦ rw e (e, h expiry)
    | inr e ↦ rw e (e, h expiry)
  ]
  leased-IsRight r (raise e) h = tt

  inspect_sound-IsRight :
      (r : Row) → IsWellFormed r → IsRight observed (inspect_sound calendar observed r)
  unfolding inspect_sound IsRight
  inspect_sound-IsRight r w = elim (Bool-cases (is_text "running" r.status)) [
    | inr e ↦ rw e (unleased_or_uncertain _ (not (is_null r.owner) || not (is_null r.expires)))
    | inl e ↦ elim (Bool-cases (is_null r.owner || is_null r.expires)) [
      | inl f ↦ rw (e, f) tt
      | inr f ↦ elim (Bool-cases (is_text "active" r.run_status)) [
        | inr g ↦ rw (e, f, g) tt
        | inl g ↦
            rw (e, f, g)
              (leased-IsRight r (expiry_of calendar r.expires) (λ n. record {
                run_named = w.run_named;
                process_named = w.process_named;
                owner_named = ground (arith, f, w.owner_named);
                running = e;
                active = g;
                attempts_left = w.attempts_left;
              }))
      ]
    ]
  ]
    where
      unleased_or_uncertain :
          (i : Issue) (b : Bool) → IsRight observed (if b then uncertain i else unleased)
      unleased_or_uncertain i true = tt
      unleased_or_uncertain i false = tt

  judged-IsRight :
      (r : Row) (problems : List String)
      → malformed r ≡ problems
      → IsRight observed (judged calendar observed r problems)
  unfolding IsRight
  judged-IsRight r [] e = inspect_sound-IsRight r (malformed-nil r e)
  judged-IsRight r (p ∷ ps) e = tt

  inspect_rows-IsSorted :
      (rs : List Row) (s : Inspection)
      → IsSorted observed s
      → IsSorted observed (inspect_rows calendar observed rs s)
  unfolding inspect_rows inspect_row
  inspect_rows-IsSorted [] s h = h
  inspect_rows-IsSorted (r ∷ rs) s h =
      inspect_rows-IsSorted rs (record_verdict (inspect_row calendar observed r) s) (
        record_verdict-IsSorted observed (inspect_row calendar observed r) s
          (judged-IsRight r (malformed r) refl) h)

  scanned-IsSorted :
      (limit : ℕ) (kept : List Row) (more : Bool) (s : Inspection)
      → IsSorted observed s
      → IsSorted observed (scanned calendar observed limit (kept, more) s)
  scanned-IsSorted limit kept true s h =
      inspect_rows-IsSorted kept (with_error (row_limit_exceeded limit) s) h
  scanned-IsSorted limit kept false s h = inspect_rows-IsSorted kept s h

  database-IsSorted :
      (limit : ℕ) (db : Database) (s : Inspection)
      → IsSorted observed s
      → IsSorted observed (inspect_database calendar observed limit db s)
  unfolding inspect_database
  database-IsSorted limit db s h =
      elim (Bool-cases (not (is_six db.schema_version) || not (is_six db.user_version))) [
        | inl bad ↦ rw bad h
        | inr good ↦
            let (kept, more) = read_rows limit db.process_rows in
            rw good (scanned-IsSorted limit kept more s h)
      ]

  source-IsSorted :
      (limit : Option ℕ) (source : Source) (s : Inspection)
      → IsSorted observed s
      → IsSorted observed (limited calendar observed limit source s)
  source-IsSorted none source s h = h
  source-IsSorted (some limit) (unavailable message) s h = h
  source-IsSorted (some limit) (failing message) s h = h
  source-IsSorted (some limit) (readable db) s h = database-IsSorted limit db s h

module _ ⦃platform : Platform⦄ (calendar : Calendar) where
  -- Whatever the limit and the database, at a time that can be read: every lease that an inspection
  -- lists as current expires after that time, every one that it lists as expired does not, and all of
  -- them are held by a named owner on a running process of an active run whose attempts do not exceed
  -- their maximum.
  pub inspect_leases-IsSorted :
      (now : Now) (limit : Limit) (source : Source) {observed : ℤ}
      → utc calendar now ≡ ok observed
      → IsSorted observed (inspect_leases calendar now limit source)
  unfolding inspect_leases
  inspect_leases-IsSorted now limit source {observed} e = rw e (
      source-IsSorted calendar observed (positive_limit limit) source
        (record envelope { observed_at = some observed }) (tt, tt))
