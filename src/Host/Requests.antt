-- ===== src/Host/Requests.antt =====
-- python/fala/host.py: what the maintenance calls let through to the native engine.
use fala.Prelude.{
  String, ◌<>◌, ◌≡◌, refl, sym, ap, arith, inl, inr, ◌⊎◌, Bool, true, false, not, ◌||◌, Option,
  none, some, is_some,
}
use fala.Prelude.Int.{ℤ, pos, negsuc, ltb_ℤ}
use fala.Python.Number.{Float, whole, is_finite, number_lt}
use fala.Python.Outcome.{returned_value, ok, raise_if, Error, invert, builtin, value_error}
use fala.Python.Value.{Value, Fields, null, bool, int, float, str, list, dict, get}
use fala.Python.Text.{truthy, str_lt, ends_with_char, without_last}
use fala.Python.Json.{Platform}
use fala.Inspection.Clock.{Calendar}
use fala.Host.Arguments.{
  World, age_of, kept_runs, flag, reaction_root_of, durable_database, named, timestamp, text_or,
  maintain_request, recover_request,
}

-- A request to prune the journal that is within its bounds.
abbrev pub IsBounded : (is_file is_dir : String → Bool) → Fields → Type 0
IsBounded is_file is_dir request =
    ((db : String) × (get "db_path" request ≡ some (str db)) × (is_file db ≡ true))
    × ((age : Float) × (get "older_than_days" request ≡ some (float age))
        × (is_finite age ≡ true)
        × (number_lt age (whole (pos 0)) ≡ false))
    × ((keep : ℤ) × (get "keep_last" request ≡ some (int keep)) × (ltb_ℤ keep (negsuc 0) ≡ false))
    × ((vacuum : Bool) × (get "vacuum" request ≡ some (bool vacuum)))
    × ((dry_run : Bool) × (get "dry_run" request ≡ some (bool dry_run)))
    × ((root : String) × (get "reaction_root" request ≡ some (str root))
        × ((truthy root ≡ false) ⊎ (is_dir root ≡ true)))

-- A time that the calls take: a text that ends in `Z` and that the calendar reads as a date.
abbrev pub IsTimestamp : Calendar → String → Type 0
IsTimestamp calendar value =
    (ends_with_char 90 value ≡ true)
    × (is_some (calendar.from_iso (without_last value <> "+00:00")) ≡ true)

-- A request to recover claims that is fit to be carried out.
abbrev pub IsRecovery : (is_file : String → Bool) → Calendar → Fields → Type 0
IsRecovery is_file calendar request =
    ((db : String) × (get "db_path" request ≡ some (str db)) × (is_file db ≡ true))
    × ((worker : String) × (get "worker_id" request ≡ some (str worker)) × (truthy worker ≡ true))
    × ((now : String) × (due : String) × (get "now" request ≡ some (str now))
        × (get "retry_available_at" request ≡ some (str due))
        × IsTimestamp calendar now
        × IsTimestamp calendar due
        × (str_lt due now ≡ false))

durable_database_sound :
    (is_file : String → Bool) (db operation path : String)
    → durable_database is_file db operation ≡ ok path
    → is_file path ≡ true
unfolding durable_database
durable_database_sound is_file db operation path h = ground arith

kept_runs-bounded : (v : Value) (keep : ℤ) → kept_runs v ≡ ok keep → ltb_ℤ keep (negsuc 0) ≡ false
kept_runs-bounded (int n) keep h = ground arith
kept_runs-bounded null keep h = absurd (cc)
kept_runs-bounded (bool b) keep h = absurd (cc)
kept_runs-bounded (float x) keep h = absurd (cc)
kept_runs-bounded (str t) keep h = absurd (cc)
kept_runs-bounded (list vs) keep h = absurd (cc)
kept_runs-bounded (dict fs) keep h = absurd (cc)

reaction_root_sound :
    (is_dir : String → Bool) (given : Option String) (root : String)
    → reaction_root_of is_dir given ≡ ok root
    → (truthy root ≡ false) ⊎ (is_dir root ≡ true)
reaction_root_sound is_dir none root h = inl (rw (← (returned_value h)) refl)
reaction_root_sound is_dir (some given) root h = inr (ground arith)

age_test :
    (age : Float) (e : Error) (u : Unit {0})
    → raise_if (not (is_finite age) || number_lt age (whole (pos 0))) e ≡ ok u
    → (is_finite age ≡ true) × (number_lt age (whole (pos 0)) ≡ false)
age_test age e u h = ground arith

timestamp-IsTimestamp :
    (calendar : Calendar) (value label t : String)
    → timestamp calendar value label ≡ ok t
    → IsTimestamp calendar t
unfolding timestamp
timestamp-IsTimestamp calendar value label t h = ground arith

named-truthy :
    ⦃platform : Platform⦄ (name : String) (e : Error) (t : String)
    → named name e ≡ ok t
    → truthy t ≡ true
named-truthy name e t h = ground arith

module _ ⦃platform : Platform⦄ (world : World) where
  -- A request to maintain the journal, whatever the arguments were: it names a database file that is there,
  -- an age that is finite and not negative, a number of runs to keep that is at least -1, Boolean values
  -- for `vacuum` and `dry_run`, and a reaction root that is blank or a directory that is there.
  pub maintain_request-IsBounded :
      (db : String) (older_than_days keep_last vacuum dry_run : Value)
      (reaction_root : Option String) (request : Fields)
      → maintain_request world db older_than_days keep_last vacuum dry_run reaction_root
        ≡ ok request
      → IsBounded world.is_file world.is_dir request
  unfolding maintain_request
  maintain_request-IsBounded db older_than_days keep_last vacuum dry_run reaction_root request h =
      invert (age_of world.to_float older_than_days) _ h λ age p h.
        invert
          (raise_if (not (is_finite age) || number_lt age (whole (pos 0))) (
            builtin value_error
              "fala.maintain_journal: older_than_days must be finite and non-negative"))
          _ h
          λ u q h. invert (kept_runs keep_last) _ h λ keep r h. invert (flag vacuum) _ h λ v s h.
            invert (flag dry_run) _ h λ d t h.
              invert (durable_database world.is_file db "maintain_journal") _ h λ path o h.
                invert (reaction_root_of world.is_dir reaction_root) _ h λ root g h.
                  let m = sym (returned_value h) in
                  let (finite_age, old_age) = age_test age _ u q in
                  (
                    (
                      path,
                      ap (get "db_path") m,
                      durable_database_sound world.is_file db "maintain_journal" path o,
                    ),
                    (age, ap (get "older_than_days") m, finite_age, old_age),
                    (keep, ap (get "keep_last") m, kept_runs-bounded keep_last keep r),
                    (v, ap (get "vacuum") m),
                    (d, ap (get "dry_run") m),
                    (
                      root,
                      ap (get "reaction_root") m,
                      reaction_root_sound world.is_dir reaction_root root g,
                    ),
                  )

  -- A request to recover claims, whatever the arguments were: it names a database file that is there, a
  -- worker whose name is not blank, and two times that end in `Z` and are dates to the calendar, of which
  -- the time of the retry does not precede the other in the order of texts.
  pub recover_request-IsRecovery :
      (db worker_id now : String) (retry_available_at : Option String) (request : Fields)
      → recover_request world db worker_id now retry_available_at ≡ ok request
      → IsRecovery world.is_file world.calendar request
  unfolding recover_request
  recover_request-IsRecovery db worker_id now retry_available_at request h =
      invert
        (named worker_id
          (builtin value_error "fala.recover_incomplete: worker_id must not be blank"))
        _ h
        λ worker p h. invert (timestamp world.calendar now "now") _ h λ at q h.
          invert (timestamp world.calendar (text_or at retry_available_at) "retry_available_at") _ h
            λ due r h.
              invert
                (raise_if (str_lt due at) (
                  builtin value_error
                    "fala.recover_incomplete: retry_available_at must not precede now"))
                _ h
                λ u o h.
                  invert (durable_database world.is_file db "recover_incomplete") _ h λ path g h.
                    let m = sym (returned_value h) in
                    (
                      (
                        path,
                        ap (get "db_path") m,
                        durable_database_sound world.is_file db "recover_incomplete" path g,
                      ),
                      (worker, ap (get "worker_id") m, named-truthy worker_id _ worker p),
                      (
                        at,
                        due,
                        ap (get "now") m,
                        ap (get "retry_available_at") m,
                        timestamp-IsTimestamp world.calendar now "now" at q,
                        timestamp-IsTimestamp world.calendar (text_or at retry_available_at)
                            "retry_available_at" due r,
                        ground arith,
                      ),
                    )
