-- ===== src/Annotations.antt =====
-- internal/utils/structutils/map.go: numbers, Booleans and times in annotations, as
-- strconv.ParseInt and strconv.ParseBool read them. Each returns Go's pair of a value and an error.
-- `time.Parse` at RFC 3339 is a parameter.
pub mod Merge
use Prim.Native.Char.{Char, code}
use slurm_operator.Prelude.{
  ℕ, zero, suc, String, Bool, true, false, ◌&&◌, ◌||◌, List, [], ◌∷◌, Option, none, some, leb, ◌==◌,
  str_eq, chars, if◌then◌else◌,
}
use slurm_operator.Prelude.Int.{ℤ, pos, negsuc}
use slurm_operator.Api.{Error, text}
use slurm_operator.Api.Maps.{Labels, get?}
use slurm_operator.Naming.Digits.{is_digits, value}

valid_first_digit : List Char → Bool
valid_first_digit [] = false
valid_first_digit (c ∷ []) = code c == b'-' || (leb b'0' (code c) && leb (code c) b'9')
valid_first_digit (c ∷ _ ∷ _) = code c == b'-' || (leb b'1' (code c) && leb (code c) b'9')

abbrev negate : ℕ → ℤ
negate zero = pos 0
negate (suc n) = negsuc n

-- `strconv.ParseInt(value, 10, 32)`, on a text that passes `validFirstDigit`.
parse_int : List Char → Option ℤ
unfolding is_digits value
parse_int [] = none
parse_int (c ∷ s) =
    if code c == b'-'
    then (if is_digits s && leb (value 0 s) 2147483648 then some (negate (value 0 s)) else none)
    else if is_digits (c ∷ s) && leb (value 0 (c ∷ s)) 2147483647
    then some (pos (value 0 (c ∷ s)))
    else none

abbrev or_error : {A : Type 0} → A → Option A → A × Option Error
or_error zero_value none = (zero_value, some (text "invalid value"))
or_error zero_value (some a) = (a, none)

unfoldable pub get_number_from_annotations : Labels → String → ℤ × Option Error
unfolding valid_first_digit parse_int chars get?
get_number_from_annotations annotations key = elim (get? key annotations) [
  | none ↦ (pos 0, none)
  | some value ↦
      if valid_first_digit (chars value)
      then or_error (pos 0) (parse_int (chars value))
      else (pos 0, some (text "invalid value"))
]

-- `strconv.ParseBool`.
parse_bool : String → Option Bool
parse_bool s =
    if str_eq s "1"
      || str_eq s "t"
      || str_eq s "T"
      || str_eq s "true"
      || str_eq s "TRUE"
      || str_eq s "True"
    then some true
    else if str_eq s "0"
        || str_eq s "f"
        || str_eq s "F"
        || str_eq s "false"
        || str_eq s "FALSE"
        || str_eq s "False"
    then some false
    else none

unfoldable pub get_bool_from_annotations : Labels → String → Bool × Option Error
unfolding parse_bool get?
get_bool_from_annotations annotations key = elim (get? key annotations) [
  | none ↦ (false, none)
  | some value ↦ or_error false (parse_bool value)
]

unfoldable pub get_time_from_annotations : (String → Option ℕ) → Labels → String → ℕ × Option Error
unfolding get?
get_time_from_annotations parse_time annotations key = elim (get? key annotations) [
  | none ↦ (0, none)
  | some value ↦ or_error 0 (parse_time value)
]
