-- ===== src/Quote/Tests.antt =====
-- The theorems on internal/quote/limits.go and session.go at concrete inputs.
use fillwire.Quote.Symbols.Listed.{Apart, parse_symbols-Listed}
use fillwire.Quote.Symbols.{Symbol, parse_symbols, valid_symbol, max_symbols}
use fillwire.Prelude.Strings.{split}
use fillwire.Prelude.{refl, List, [], ◌∷◌, arith, ◌≤◌, ◌≡◌, true, ℕ, some, ◌<◌, ok, All}
use fillwire.Quote.Window.{
  in_window, admissions, Call, reserve_at, cool_down_until, in_window-admissions,
}
use fillwire.Quote.Refused.{Bounded, add_all, add_all-Bounded}
use fillwire.Quote.{RefusedTokens, reserve, new_declare_limiter, cool_down, contains, keep, add}
use fillwire.Quote.Session.Merge.{
  StartsSorted, AllSeparated, nearly_covered, nearly_covered-merge, closes-merge,
}
use fillwire.Quote.Session.{merge, Interval, merge_from, closes}

-- Six reservations within a second, a cool-down, and one after the first has left the window.
abbrev calls : List Call
calls =
    reserve_at 10
    ∷ reserve_at 11
    ∷ reserve_at 12
    ∷ reserve_at 13
    ∷ reserve_at 14
    ∷ reserve_at 15
    ∷ cool_down_until 20
    ∷ reserve_at 1000000010
    ∷ []

admissions-calls : admissions calls new_declare_limiter ≡ 10 ∷ 11 ∷ 12 ∷ 13 ∷ 14 ∷ 1000000010 ∷ []
unfolding admissions reserve cool_down keep
admissions-calls = refl

in_window-admissions_example : in_window 10 (admissions calls new_declare_limiter) ≤ 5
in_window-admissions_example = in_window-admissions calls (ground arith) 10

abbrev no_tokens : RefusedTokens
no_tokens = record { order = []; set = [] }

no_tokens-Bounded : Bounded no_tokens
no_tokens-Bounded = record { same = refl; distinct = tt; at_most = omega arith }

add_all-Bounded_example :
    Bounded (add_all (λ s. s) ("a" ∷ "b" ∷ "a" ∷ []) no_tokens)
    × (contains (λ s. s) "c" (add (λ s. s) "c" (add_all (λ s. s) ("a" ∷ "b" ∷ "a" ∷ []) no_tokens))
        ≡ true)
add_all-Bounded_example =
    add_all-Bounded (λ s. s) ("a" ∷ "b" ∷ "a" ∷ []) "c" no_tokens no_tokens-Bounded

-- Two windows ten minutes apart, and one an hour later.
abbrev morning : Interval
morning = record { start = 1000; end = 2000 }

abbrev later_on : List Interval
later_on =
    record { start = 600000002000; end = 600000003000 }
    ∷ record { start = 4200000003000; end = 4200000004000 }
    ∷ []

later_on-sorted : StartsSorted morning later_on
later_on-sorted = ground arith

closes-merge_example :
    AllSeparated (merge (morning ∷ later_on))
    × (e : ℕ) × (closes 1500 (merge (morning ∷ later_on)) ≡ some e)
    × (1500 < e)
closes-merge_example = closes-merge morning later_on 1500 later_on-sorted refl

merge-later_on :
    merge (morning ∷ later_on)
    ≡ record { start = 1000; end = 600000003000 }
      ∷ record { start = 4200000003000; end = 4200000004000 }
      ∷ []
unfolding merge merge_from
merge-later_on = refl

-- A time in the pause between the first two windows.
in_pause : closes 5000 (merge (morning ∷ later_on)) ≡ some 600000003000
unfolding closes merge merge_from
in_pause = refl

nearly_covered-merge_example : nearly_covered 5000 (morning ∷ later_on) ≡ true
nearly_covered-merge_example = nearly_covered-merge morning later_on 5000 600000003000 in_pause

abbrev two_symbols : List Symbol
two_symbols =
    record { market = "kr"; ticker = "005930" } ∷ record { market = "us"; ticker = "BRK.B" } ∷ []

two_symbols-parsed :
    parse_symbols 45 "# list\nkr 005930 # first\n\n  us\tBRK.B\r\n" ≡ ok two_symbols
unfolding parse_symbols split
two_symbols-parsed = refl

parse_symbols-Listed_example :
    (1 ≤ 2)
    × (2 ≤ max_symbols)
    × All (λ (s : Symbol). valid_symbol s ≡ true) two_symbols
    × Apart [] two_symbols
parse_symbols-Listed_example =
    parse_symbols-Listed 45 "# list\nkr 005930 # first\n\n  us\tBRK.B\r\n" two_symbols
      two_symbols-parsed
