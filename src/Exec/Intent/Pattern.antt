-- ===== src/Exec/Intent/Pattern.antt =====
-- The three regular expressions of internal/exec/intent.go, as matchers of code points. A Go `$`
-- without the m flag matches at the end of the text alone.
use fillwire.Prelude.{
  ℕ, zero, suc, String, Bool, true, false, ◌&&◌, ◌||◌, List, [], ◌∷◌, ◌++◌, ◌==◌, leb, codes,
}

abbrev CharClass : Type 0
CharClass = ℕ → Bool

between : ℕ → ℕ → CharClass
between low high c = leb low c && leb c high

digit : CharClass
digit = between b'0' b'9'

upper : CharClass
upper = between b'A' b'Z'

lower : CharClass
lower = between b'a' b'z'

hex : CharClass
hex c = digit c || between b'a' b'f' c

alnum : CharClass
alnum c = upper c || lower c || digit c

symbol_char : CharClass
symbol_char c = digit c || upper c

-- [A-Za-z0-9._:/-]
reference_char : CharClass
reference_char c = alnum c || c == b'.' || c == b'_' || c == b':' || c == b'/' || c == b'-'

dash : CharClass
dash c = c == b'-'

-- One class for each code point.
matches_each : List CharClass → List ℕ → Bool
matches_each [] [] = true
matches_each [] (c ∷ cs) = false
matches_each (k ∷ ks) [] = false
matches_each (k ∷ ks) (c ∷ cs) = k c && matches_each ks cs

repeat : ℕ → CharClass → List CharClass
repeat zero k = []
repeat (suc n) k = k ∷ repeat n k

-- `^[0-9a-f]{8}-[0-9a-f]{4}-[0-9a-f]{4}-[0-9a-f]{4}-[0-9a-f]{12}$`
unfoldable pub is_uuid : String → Bool
unfolding matches_each repeat hex dash digit between
is_uuid s =
    matches_each
      (repeat 8 hex
        ++ (dash
            ∷ (repeat 4 hex
                ++ (dash ∷ (repeat 4 hex ++ (dash ∷ (repeat 4 hex ++ (dash ∷ repeat 12 hex))))))))
      (codes s)

-- `^[0-9][0-9A-Z]{5}$`
unfoldable pub is_krx_symbol : String → Bool
unfolding matches_each repeat symbol_char upper digit between
is_krx_symbol s = matches_each (digit ∷ repeat 5 symbol_char) (codes s)

-- At most `n` code points, all of the class.
at_most : ℕ → CharClass → List ℕ → Bool
at_most n k [] = true
at_most zero k (c ∷ cs) = false
at_most (suc n) k (c ∷ cs) = k c && at_most n k cs

reference_codes : List ℕ → Bool
reference_codes [] = false
reference_codes (c ∷ cs) = alnum c && at_most 127 reference_char cs

-- `^[A-Za-z0-9][A-Za-z0-9._:/-]{0,127}$`
unfoldable pub is_reference : String → Bool
unfolding reference_codes at_most reference_char alnum upper lower digit between
is_reference s = reference_codes (codes s)
