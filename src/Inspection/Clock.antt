-- ===== src/Inspection/Clock.antt =====
-- python/fala/inspection.py: `_utc`. The calendar of the standard library is a parameter.
use Prim.Native.Char.{code}
use fala.Prelude.{String, Bool, ◌||◌, Option, none, some, if◌then◌else◌, eqb}
use fala.Prelude.Int.{ℤ}
use fala.Python.Outcome.{Outcome, ok, raise, builtin, type_error, value_error, overflow_error}
use fala.Python.Text.{truthy, one_char}
use fala.Python.Json.{Platform}

-- A `datetime`: its instant in microseconds of UTC, unless UTC's calendar does not reach it, and
-- whether it carries an offset.
pub record Moment : Type 0 where
  pub instant : Option ℤ
  pub aware : Bool

pub record Calendar : Type 0 where
  -- `datetime.fromisoformat(text)`; `none` is a ValueError
  pub from_iso : String → Option Moment
  -- `isoformat(timespec="microseconds")` of an instant, with `Z` for `+00:00`
  pub stamp : ℤ → String
  -- `datetime.now(timezone.utc)`
  pub now : ℤ

-- What a caller may pass for `now`.
pub data Now : Type 0 where
  absent : Now
  moment : Moment → Now
  text : String → Now
  other : Now

-- `text[:-1] + "+00:00"` if the text ends in `Z` or `z`
abbrev pub spell_offset : String → String
spell_offset String.[] = String.[]
spell_offset (String.◌∷◌ c String.[]) =
    if eqb (code c) 90 || eqb (code c) 122 then "+00:00" else one_char c
spell_offset (String.◌∷◌ c (String.◌∷◌ d s)) = String.◌∷◌ c (spell_offset (String.◌∷◌ d s))

module _ ⦃platform : Platform⦄ (calendar : Calendar) where
  -- `parsed.astimezone(timezone.utc)`
  abbrev in_utc : Option ℤ → Outcome ℤ
  in_utc none = raise (builtin overflow_error "")
  in_utc (some n) = ok n

  abbrev pub aware_instant : Moment → Outcome ℤ
  aware_instant m =
      if m.aware
      then in_utc m.instant
      else raise (builtin value_error "timestamp must include a UTC offset")

  abbrev parsed : Option Moment → Outcome ℤ
  parsed none = raise (builtin value_error "")
  parsed (some m) = aware_instant m

  abbrev utc_text : String → Outcome ℤ
  utc_text s =
      if truthy s
      then parsed (calendar.from_iso (spell_offset s))
      else raise (builtin value_error "timestamp is empty")

  -- `_utc`
  unfoldable pub utc : Now → Outcome ℤ
  utc absent = ok calendar.now
  utc (moment m) = aware_instant m
  utc (text s) = utc_text (platform.strip s)
  utc other = raise (builtin type_error "now must be a datetime, ISO-8601 string, or None")
