-- ===== src/Quote/Symbols/Listed.antt =====
-- The lists that internal/quote/symbols.go accepts.
use fillwire.Quote.Symbols.{
  Symbol, SymbolsError, parse_symbols, parse_lines, symbol_of_line, words, pieces, before_hash,
  valid_symbol, has_symbol, max_symbols, max_symbols_file_bytes, split,
}
use fillwire.Prelude.{
  none, some, ℕ, String, List, [], ◌∷◌, ok, err, ◌≡◌, true, false, All, length, arith, ◌≤◌, Result,
  ◌+◌, Bool-cases, ok-eq, ltb, inl, some-eq, Result-cases, inr, ◌==◌, ltb-ge, ◌&&◌,
}
use fillwire.Prelude.Strings.{split}

-- No symbol was seen, or stands twice.
abbrev pub Apart : List Symbol → List Symbol → Type 0
Apart seen [] = Unit
Apart seen (s ∷ ss) = (has_symbol s seen ≡ false) × Apart (s ∷ seen) ss

refuted :
    {A : Type 0} {e : SymbolsError} {a : A} → ◌≡◌ {A = Result SymbolsError A} (err e) (ok a) → ⊥
refuted h = cc

symbol_of_line-valid :
    (ws : List String) (s : Symbol) → symbol_of_line ws ≡ ok (some s) → valid_symbol s ≡ true
unfolding symbol_of_line
symbol_of_line-valid [] s h = cc
symbol_of_line-valid (a ∷ []) s h = absurd (refuted h)
symbol_of_line-valid (a ∷ b ∷ []) s h =
    elim (Bool-cases (valid_symbol (record { market = a; ticker = b }))) [
      | inl good ↦ rw (← some-eq (ok-eq (rw (good, symbol_of_line) at h))) good
      | inr bad ↦ absurd (refuted (rw (bad, symbol_of_line) at h))
    ]
symbol_of_line-valid (a ∷ b ∷ c ∷ ws) s h = absurd (refuted h)

parse_lines-Listed :
    (seen : List Symbol) (ls : List String) (ss : List Symbol)
    → length seen ≤ max_symbols
    → parse_lines seen ls ≡ ok ss
    → All (λ (s : Symbol). valid_symbol s ≡ true) ss
      × Apart seen ss
      × (length seen + length ss ≤ max_symbols)
unfolding parse_lines
parse_lines-Listed seen [] ss small h = rw (← ok-eq h) (tt, tt, omega arith)
parse_lines-Listed seen (l ∷ ls) ss small h =
    elim (Result-cases (symbol_of_line (words (pieces (before_hash l))))) [
      | inr (e, bad) ↦ absurd (refuted (rw (bad, parse_lines) at h))
      | inl (none, blank) ↦ parse_lines-Listed seen ls ss small (rw (blank, parse_lines) at h)
      | inl (some s, given) ↦ elim (Bool-cases (has_symbol s seen)) [
        | inl again ↦ absurd (refuted (rw (given, again, parse_lines) at h))
        | inr new ↦ elim (Bool-cases (ltb max_symbols (length seen + 1))) [
          | inl many ↦ absurd (refuted (rw (given, new, many, parse_lines) at h))
          | inr fits ↦ elim (Result-cases (parse_lines (s ∷ seen) ls)) [
            | inr (e, bad) ↦ absurd (refuted (rw (given, new, fits, bad, parse_lines) at h))
            | inl (rest, good) ↦
                let le = ltb-ge max_symbols (length seen + 1) fits in
                let (all, apart, few) = parse_lines-Listed (s ∷ seen) ls rest (omega arith) good in
                rw (← ok-eq (rw (given, new, fits, good, parse_lines) at h)) (
                  (symbol_of_line-valid (words (pieces (before_hash l))) s given, all),
                  (new, apart),
                  omega arith,
                )
          ]
        ]
      ]
    ]

-- A list that ParseSymbols accepts has between 1 and 40 symbols, each of them valid, and none twice.
pub parse_symbols-Listed :
    (size : ℕ) (contents : String) (ss : List Symbol)
    → parse_symbols size contents ≡ ok ss
    → (1 ≤ length ss)
      × (length ss ≤ max_symbols)
      × All (λ (s : Symbol). valid_symbol s ≡ true) ss
      × Apart [] ss
unfolding parse_symbols
parse_symbols-Listed size contents ss h = elim (Bool-cases (ltb max_symbols_file_bytes size)) [
  | inl large ↦ absurd (refuted (rw (large, parse_symbols) at h))
  | inr fits ↦
      elim (Bool-cases (size == max_symbols_file_bytes && length (split b'\n' contents) == 1)) [
        | inl full ↦ absurd (refuted (rw (fits, full, parse_symbols) at h))
        | inr free ↦ elim (Result-cases (parse_lines [] (split b'\n' contents))) [
          | inr (e, bad) ↦ absurd (refuted (rw (fits, free, bad, parse_symbols) at h))
          | inl ([], good) ↦ absurd (refuted (rw (fits, free, good, parse_symbols) at h))
          | inl (r ∷ rest, good) ↦
              let (all, apart, few) =
                parse_lines-Listed [] (split b'\n' contents) (r ∷ rest) (omega arith) good in
              rw (← ok-eq (rw (fits, free, good, parse_symbols) at h))
                (omega arith, omega (arith, few), all, apart)
        ]
      ]
]
