-- ===== src/Prelude/Word.antt =====
-- Go's int64: integers that wrap around at 2 ^ 63.
use Prim.Native.Nat.{ℕ, ◌/◌, ◌+◌, ◌-◌, ◌*◌, ◌%◌, ◌^◌, ◌≤◌, ◌<◌}
use mathlib.Core.Path.{◌≡◌}
use native.Mathlib.Omega.{arith}
use fillwire.Prelude.Tests.{ltb, if◌then◌else◌}
use fillwire.Prelude.Int.{
  ◌≤ℤ◌, neg_part_of_nonneg, ℤ, pos, negsuc, pos_part, neg_part, ◌+ℤ◌, ◌-ℤ◌, ◌*ℤ◌, quot,
}

-- The integer that a 64-bit pattern stands for.
abbrev pub of_word : ℕ → ℤ
of_word w = if ltb w (2 ^ 63) then pos w else negsuc (2 ^ 64 - w - 1)

-- The int64 with the low 64 bits of an integer.
unfoldable pub wrap64 : ℤ → ℤ
wrap64 (pos n) = of_word (n % 2 ^ 64)
wrap64 (negsuc n) = of_word (2 ^ 64 - 1 - n % 2 ^ 64)

unfoldable pub add64 : ℤ → ℤ → ℤ
add64 a b = wrap64 (a +ℤ b)

unfoldable pub sub64 : ℤ → ℤ → ℤ
sub64 a b = wrap64 (a -ℤ b)

unfoldable pub mul64 : ℤ → ℤ → ℤ
mul64 a b = wrap64 (a *ℤ b)

-- Only -2 ^ 63 / -1 wraps.
unfoldable pub quot64 : ℤ → ℤ → ℤ
quot64 a b = wrap64 (quot a b)

-- The values of an int64 variable.
abbrev pub IsInt64 : ℤ → Type 0
IsInt64 a = (pos_part a < 2 ^ 63) × (neg_part a ≤ 2 ^ 63)

pub wrap64_id : (a : ℤ) → pos_part a < 2 ^ 63 → neg_part a ≤ 2 ^ 63 → wrap64 a ≡ a
unfolding wrap64
wrap64_id (pos n) h k = ground arith
wrap64_id (negsuc n) h k = ground arith

pub wrap64-IsInt64 : (a : ℤ) → IsInt64 (wrap64 a)
unfolding wrap64
wrap64-IsInt64 (pos n) = ground arith
wrap64-IsInt64 (negsuc n) = ground arith

-- Sums and differences of values whose parts are small are exact.
pub add64_parts :
    (a b : ℤ)
    → pos_part a + pos_part b < 2 ^ 63
    → neg_part a + neg_part b ≤ 2 ^ 63
    → add64 a b ≡ a +ℤ b
unfolding add64 ◌+ℤ◌
add64_parts a b h k = wrap64_id (a +ℤ b) (ground arith) (ground arith)

pub sub64_parts :
    (a b : ℤ)
    → pos_part a + neg_part b < 2 ^ 63
    → neg_part a + pos_part b ≤ 2 ^ 63
    → sub64 a b ≡ a -ℤ b
unfolding sub64 ◌-ℤ◌
sub64_parts a b h k = wrap64_id (a -ℤ b) (ground arith) (ground arith)

pub add64-pos : (a b : ℕ) → a + b < 2 ^ 63 → add64 (pos a) (pos b) ≡ pos (a + b)
unfolding add64 wrap64 ◌+ℤ◌
add64-pos a b h = ground arith

pub sub64-pos : (a b : ℕ) → b ≤ a → a < 2 ^ 63 → sub64 (pos a) (pos b) ≡ pos (a - b)
unfolding sub64 wrap64 ◌-ℤ◌
sub64-pos a b h k = ground arith

pub mul64-pos : (a b : ℕ) → a * b < 2 ^ 63 → mul64 (pos a) (pos b) ≡ pos (a * b)
unfolding mul64 ◌*ℤ◌
mul64-pos a b h = wrap64_id (pos (a * b)) h (omega arith)

pub quot64-pos : (a b : ℕ) → a < 2 ^ 63 → quot64 (pos a) (pos b) ≡ pos (a / b)
unfolding quot64
quot64-pos a b h = wrap64_id (pos (a / b)) (ground arith) (omega arith)

-- The difference of two int64 values that are not negative is exact.
pub sub64-nonneg :
    (a b : ℤ)
    → pos 0 ≤ℤ a
    → pos_part a < 2 ^ 63
    → pos 0 ≤ℤ b
    → pos_part b < 2 ^ 63
    → sub64 a b ≡ a -ℤ b
sub64-nonneg a b h k h' k' =
    sub64_parts a b (omega (arith, neg_part_of_nonneg b)) (omega (arith, neg_part_of_nonneg a))

pub add64-IsInt64 : (a b : ℤ) → IsInt64 (add64 a b)
unfolding add64
add64-IsInt64 a b = wrap64-IsInt64 (a +ℤ b)
