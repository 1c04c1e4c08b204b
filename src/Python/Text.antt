-- ===== src/Python/Text.antt =====
-- Python's `str`: length, truth, order, `replace` of one character, and decimal numerals.
use Prim.Native.Nat.{Ordering}
use Prim.Native.Char.{Char, code}
use Prim.Native.String.{compare}
use text.Mathlib.Text.{find?}
use fala.Prelude.{
  is_some, ℕ, zero, suc, ◌/◌, ◌%◌, String, ◌<>◌, ◌≡◌, refl, Bool, true, false, Option, none, some,
  List, [], ◌∷◌, if◌then◌else◌, ◌==◌, ltb, eqb,
}
use fala.Prelude.Int.{ℤ, pos, negsuc}

-- `len(s)`: code points
abbrev pub str_len : String → ℕ
str_len String.[] = 0
str_len (String.◌∷◌ c s) = suc (str_len s)

-- `bool(s)`
abbrev pub truthy : String → Bool
truthy String.[] = false
truthy (String.◌∷◌ c s) = true

-- `a < b`: by code points
abbrev pub str_lt : String → String → Bool
str_lt a b = elim (compare a b) [ Ordering.lt ↦ true | _ ↦ false ]

abbrev pub one_char : Char → String
one_char c = String.◌∷◌ c String.[]

-- `s.replace(old, new)` for a text `old` of one character, given by its code
unfoldable pub replace_char : ℕ → String → String → String
replace_char old new String.[] = String.[]
replace_char old new (String.◌∷◌ c s) =
    (if eqb (code c) old then new else one_char c) <> replace_char old new s

-- The digits 0 to 9 and a to f.
abbrev pub hex_digit : ℕ → String
hex_digit zero = "0"
hex_digit (suc zero) = "1"
hex_digit (suc (suc zero)) = "2"
hex_digit (suc (suc (suc zero))) = "3"
hex_digit (suc (suc (suc (suc zero)))) = "4"
hex_digit (suc (suc (suc (suc (suc zero))))) = "5"
hex_digit (suc (suc (suc (suc (suc (suc zero)))))) = "6"
hex_digit (suc (suc (suc (suc (suc (suc (suc zero))))))) = "7"
hex_digit (suc (suc (suc (suc (suc (suc (suc (suc zero)))))))) = "8"
hex_digit (suc (suc (suc (suc (suc (suc (suc (suc (suc zero))))))))) = "9"
hex_digit (suc (suc (suc (suc (suc (suc (suc (suc (suc (suc n)))))))))) = letter n
  where
    letter : ℕ → String
    letter zero = "a"
    letter (suc zero) = "b"
    letter (suc (suc zero)) = "c"
    letter (suc (suc (suc zero))) = "d"
    letter (suc (suc (suc (suc zero)))) = "e"
    letter _ = "f"

-- `part in s`
abbrev pub contains : String → String → Bool
contains s part = is_some (find? s part)

-- `s.endswith(part)`
abbrev pub ends_with : String → String → Bool
ends_with String.[] part = String.[] == part
ends_with (String.◌∷◌ c s) part =
    let rest = ends_with s part in if String.◌∷◌ c s == part then true else rest

-- `s.endswith(c)`, for a character given by its code
abbrev pub ends_with_char : ℕ → String → Bool
ends_with_char k String.[] = false
ends_with_char k (String.◌∷◌ c String.[]) = eqb (code c) k
ends_with_char k (String.◌∷◌ c (String.◌∷◌ d s)) = ends_with_char k (String.◌∷◌ d s)

-- `s[:-1]`
abbrev pub without_last : String → String
without_last String.[] = String.[]
without_last (String.◌∷◌ c String.[]) = String.[]
without_last (String.◌∷◌ c (String.◌∷◌ d s)) = String.◌∷◌ c (without_last (String.◌∷◌ d s))

-- `text.split(c)`, for a character given by its code
abbrev pub prepend : String → List String → List String
prepend c [] = c ∷ []
prepend c (word ∷ words) = (c <> word) ∷ words

abbrev pub split : ℕ → String → List String
split k String.[] = "" ∷ []
split k (String.◌∷◌ c s) =
    let words = split k s in if eqb (code c) k then "" ∷ words else prepend (one_char c) words

-- `text[:n]`
abbrev pub first_chars : ℕ → String → String
first_chars zero s = ""
first_chars (suc n) String.[] = ""
first_chars (suc n) (String.◌∷◌ c s) = one_char c <> first_chars n s

-- `str(n)`: one unit of fuel for each digit, and `n` has at most `n + 1` of them.
unfoldable pub decimal_from : ℕ → ℕ → String
decimal_from zero n = ""
decimal_from (suc f) n =
    let front = decimal_from f (n / 10) in
    if ltb n 10 then hex_digit n else front <> hex_digit (n % 10)

unfoldable pub decimal : ℕ → String
unfolding decimal_from
decimal n = decimal_from (suc n) n

abbrev pub decimal_ℤ : ℤ → String
decimal_ℤ (pos n) = decimal n
decimal_ℤ (negsuc n) = "-" <> decimal (suc n)

-- `sorted(names)[0]`, on a list that may be empty
abbrev pub least : List String → Option String
least [] = none
least (x ∷ xs) = elim (least xs) [ none ↦ some x | some y ↦ some (if str_lt y x then y else x) ]

decimal_test : decimal 1090 ≡ "1090"
unfolding decimal
decimal_test = refl

least_test : least ("b" ∷ "a" ∷ "c" ∷ []) ≡ some "a"
least_test = refl
