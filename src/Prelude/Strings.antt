-- ===== src/Prelude/Strings.antt =====
-- What the program uses of Go's packages `strings` and `strconv`, on texts that are valid UTF-8.
use Prim.Native.Nat.{ℕ, zero, suc, ◌+◌, ◌-◌, ◌*◌, ◌^◌, ◌/◌, ◌%◌}
use Prim.Native.Char.{Char, code}
use Prim.Native.String.{String, ◌++◌ as str_append}
use mathlib.Core.Bool.{Bool, true, false, ◌&&◌, ◌||◌}
use mathlib.Core.List.{List, [], ◌∷◌}
use mathlib.Core.Option.{Option, none, some}
use fillwire.Prelude.Text.{str_eq}
use fillwire.Prelude.Tests.{ltb, leb, ◌==◌, if◌then◌else◌}
use fillwire.Prelude.Int.{ℤ, pos, negsuc}

-- `unicode.IsSpace`.
abbrev pub is_space : ℕ → Bool
is_space c =
    (leb 9 c && leb c 13)
    || c == 32
    || c == 133
    || c == 160
    || c == 5760
    || (leb 8192 c && leb c 8202)
    || c == 8232
    || c == 8233
    || c == 8239
    || c == 8287
    || c == 12288

abbrev pub is_digit : ℕ → Bool
is_digit c = leb b'0' c && leb c b'9'

-- `strings.TrimLeftFunc`.
unfoldable pub trim_left_text : (ℕ → Bool) → String → String
trim_left_text p String.[] = ""
trim_left_text p (String.◌∷◌ c s) =
    let rest = trim_left_text p s in if p (code c) then rest else String.◌∷◌ c s

-- A text in front of another that is empty only if it passes the test.
abbrev keep_right : (ℕ → Bool) → Char → String → String
keep_right p c String.[] = if p (code c) then "" else String.◌∷◌ c ""
keep_right p c (String.◌∷◌ d s) = String.◌∷◌ c (String.◌∷◌ d s)

-- `strings.TrimRightFunc`.
unfoldable pub trim_right_text : (ℕ → Bool) → String → String
trim_right_text p String.[] = ""
trim_right_text p (String.◌∷◌ c s) = keep_right p c (trim_right_text p s)

-- `strings.TrimFunc`.
unfoldable pub trim_text : (ℕ → Bool) → String → String
unfolding trim_left_text trim_right_text
trim_text p s = trim_right_text p (trim_left_text p s)

-- A character in front of the first part.
abbrev pub onto_first : Char → List String → List String
onto_first c [] = String.◌∷◌ c "" ∷ []
onto_first c (p ∷ ps) = String.◌∷◌ c p ∷ ps

-- `strings.Split` at a character.
unfoldable pub split : ℕ → String → List String
split sep String.[] = "" ∷ []
split sep (String.◌∷◌ c s) =
    let rest = split sep s in if code c == sep then "" ∷ rest else onto_first c rest

-- `strings.SplitN` with one part more than the number.
unfoldable pub split_more : ℕ → ℕ → String → List String
split_more zero sep s = s ∷ []
split_more (suc n) sep String.[] = "" ∷ []
split_more (suc n) sep (String.◌∷◌ c s) =
    let next = split_more n sep s in
    let rest = split_more (suc n) sep s in if code c == sep then "" ∷ next else onto_first c rest

-- The character and the text in front of each part.
unfoldable pub join_behind : Char → List String → String
join_behind sep [] = ""
join_behind sep (p ∷ ps) = String.◌∷◌ sep (str_append p (join_behind sep ps))

-- `strings.Join` with a character.
unfoldable pub join_text : Char → List String → String
unfolding join_behind
join_text sep [] = ""
join_text sep (p ∷ ps) = str_append p (join_behind sep ps)

-- The value of the digits behind a value; `none` at another character.
unfoldable pub digits_value : ℕ → String → Option ℕ
digits_value n String.[] = some n
digits_value n (String.◌∷◌ c s) =
    let rest = digits_value (n * 10 + (code c - b'0')) s in if is_digit (code c) then rest else none

abbrev pub unsigned_value : String → Option ℕ
unsigned_value String.[] = none
unsigned_value (String.◌∷◌ c s) = digits_value 0 (String.◌∷◌ c s)

-- The int64 with a sign and a magnitude, if there is one.
abbrev pub in_int64 : Bool → Option ℕ → Option ℤ
in_int64 negative none = none
in_int64 true (some zero) = some (pos 0)
in_int64 true (some (suc n)) = if leb (suc n) (2 ^ 63) then some (negsuc n) else none
in_int64 false (some n) = if ltb n (2 ^ 63) then some (pos n) else none

-- `strconv.ParseInt` in base 10 and 64 bits; `none` is any error.
unfoldable pub parse_int : String → Option ℤ
unfolding digits_value
parse_int String.[] = none
parse_int (String.◌∷◌ c s) =
    if code c == b'-'
    then in_int64 true (unsigned_value s)
    else if code c == b'+'
    then in_int64 false (unsigned_value s)
    else in_int64 false (unsigned_value (String.◌∷◌ c s))

unfoldable pub digit : ℕ → Char
digit d =
    if d == 0
    then "0"
    else if d == 1
    then "1"
    else if d == 2
    then "2"
    else if d == 3
    then "3"
    else if d == 4
    then "4"
    else if d == 5
    then "5"
    else if d == 6
    then "6"
    else if d == 7
    then "7"
    else if d == 8
    then "8"
    else "9"

-- The decimal digits of a number before a text, by one division for each unit of fuel.
unfoldable pub decimal_before : ℕ → ℕ → String → String
unfolding digit
decimal_before zero n s = s
decimal_before (suc fuel) n s = elim (ltb n 10) [
  | true ↦ String.◌∷◌ (digit n) s
  | false ↦ decimal_before fuel (n / 10) (String.◌∷◌ (digit (n % 10)) s)
]

-- `%d` and `strconv.FormatUint`: a number has fewer digits than `n + 1`.
unfoldable pub decimal : ℕ → String
unfolding decimal_before
decimal n = decimal_before (n + 1) n ""

-- `strconv.ParseUint` in base 10 and 64 bits; `none` is any error.
unfoldable pub parse_uint : String → Option ℕ
unfolding digits_value
parse_uint s = elim (unsigned_value s) [
  | none ↦ none
  | some n ↦ if ltb n (2 ^ 64) then some n else none
]

-- `strconv.ParseBool`; `none` is its error.
unfoldable pub parse_bool : String → Option Bool
parse_bool s =
    if str_eq s "1"
      || str_eq s "t"
      || str_eq s "T"
      || str_eq s "true"
      || str_eq s "TRUE"
      || str_eq s "True"
    then some true
    else if str_eq s "0"
        || str_eq s "f"
        || str_eq s "F"
        || str_eq s "false"
        || str_eq s "FALSE"
        || str_eq s "False"
    then some false
    else none

-- `strconv.FormatBool`.
abbrev pub format_bool : Bool → String
format_bool true = "true"
format_bool false = "false"
