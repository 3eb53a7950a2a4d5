-- ===== src/Quote/Symbols.antt =====
-- internal/quote/symbols.go: the symbol list. The contents are a text, with its size in bytes; an error
-- is its kind. The scanner gives the lines, unless one line without an end fills its buffer.
pub mod Listed
use Prim.Native.Char.{Char, code}
use fillwire.Prelude.{
  ℕ, zero, suc, String, List, [], ◌∷◌, Bool, true, false, Option, some, none, Result, ok, err,
  length, codes, ◌||◌, ◌&&◌, str_eq, leb, if◌then◌else◌, ◌==◌, ltb, ◌+◌,
}
use fillwire.Prelude.Strings.{is_space, split, onto_first}

abbrev pub max_symbols : ℕ
max_symbols = 40

abbrev pub max_symbols_file_bytes : ℕ
max_symbols_file_bytes = 65536

-- `Symbol`, with its code as `ticker`.
pub record Symbol : Type 0 where
  pub market : String
  pub ticker : String

pub data SymbolsError : Type 0 where
  too_many_bytes bad_line bad_symbol repeated too_many_symbols unreadable_line no_symbols :
      SymbolsError

-- The text in front of a '#'.
unfoldable pub before_hash : String → String
before_hash String.[] = ""
before_hash (String.◌∷◌ c s) =
    let rest = before_hash s in if code c == b'#' then "" else String.◌∷◌ c rest

unfoldable pub pieces : String → List String
pieces String.[] = "" ∷ []
pieces (String.◌∷◌ c s) =
    let rest = pieces s in if is_space (code c) then "" ∷ rest else onto_first c rest

-- `strings.Fields`, of the pieces between spaces.
unfoldable pub words : List String → List String
words [] = []
words (p ∷ ps) = let rest = words ps in if str_eq p "" then rest else p ∷ rest

-- `upperOrDigit`.
abbrev pub upper_or_digit : ℕ → Bool
upper_or_digit c = leb b'0' c && leb c b'9' || leb b'A' c && leb c b'Z'

abbrev pub us_char : ℕ → Bool
us_char c = upper_or_digit c || c == b'.' || c == b'-'

abbrev pub all_chars : (ℕ → Bool) → List ℕ → Bool
all_chars p [] = true
all_chars p (c ∷ cs) = p c && all_chars p cs

abbrev pub starts_upper : List ℕ → Bool
starts_upper [] = false
starts_upper (c ∷ cs) = leb b'A' c && leb c b'Z'

-- `ValidSymbol`. A code of other characters than ASCII is refused, so its bytes are its characters.
unfoldable pub valid_symbol : Symbol → Bool
valid_symbol s =
    let cs = codes s.ticker in
    if str_eq s.market "kr"
    then length cs == 6 && all_chars upper_or_digit cs
    else if str_eq s.market "us"
    then leb 1 (length cs) && leb (length cs) 10 && starts_upper cs && all_chars us_char cs
    else false

abbrev pub has_symbol : Symbol → List Symbol → Bool
has_symbol s [] = false
has_symbol s (t ∷ ts) = str_eq t.market s.market && str_eq t.ticker s.ticker || has_symbol s ts

-- The symbol of the words of a line; `none` on a blank one.
unfoldable pub symbol_of_line : List String → Result SymbolsError (Option Symbol)
unfolding valid_symbol
symbol_of_line [] = ok none
symbol_of_line (market ∷ ticker ∷ []) =
    let s : Symbol = record { market = market; ticker = ticker } in
    if valid_symbol s then ok (some s) else err bad_symbol
symbol_of_line _ = err bad_line

-- The loop over the lines, with the symbols so far, latest first.
unfoldable pub parse_lines : List Symbol → List String → Result SymbolsError (List Symbol)
unfolding symbol_of_line words pieces before_hash
parse_lines seen [] = ok []
parse_lines seen (l ∷ ls) = elim (symbol_of_line (words (pieces (before_hash l)))) [
  | err e ↦ err e
  | ok none ↦ parse_lines seen ls
  | ok (some s) ↦
      if has_symbol s seen
      then err repeated
      else if ltb max_symbols (length seen + 1)
      then err too_many_symbols
      else elim (parse_lines (s ∷ seen) ls) [ err e ↦ err e | ok ss ↦ ok (s ∷ ss) ]
]

-- `ParseSymbols`.
unfoldable pub parse_symbols : ℕ → String → Result SymbolsError (List Symbol)
unfolding parse_lines
parse_symbols size contents =
    let lines = split b'\n' contents in
    if ltb max_symbols_file_bytes size
    then err too_many_bytes
    else if size == max_symbols_file_bytes && length lines == 1
    then err unreadable_line
    else elim (parse_lines [] lines) [
      | err e ↦ err e
      | ok [] ↦ err no_symbols
      | ok (s ∷ ss) ↦ ok (s ∷ ss)
    ]
