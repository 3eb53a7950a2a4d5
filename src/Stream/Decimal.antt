-- ===== src/Stream/Decimal.antt =====
-- Decimal numbers as texts: what is printed is read back.
use fillwire.Prelude.{
  ℕ, zero, suc, String, some, none, ◌≡◌, refl, ◌<◌, ◌+◌, ◌*◌, ◌/◌, ◌%◌, ◌^◌, arith, ltb, ap,
  Bool-cases, true, inl, Bool, ltb-lt, if◌then◌else◌, inr, ltb-ge, ◌∙◌,
}
use fillwire.Prelude.Strings.{
  digit, decimal, decimal_before, digits_value, unsigned_value, parse_uint,
}

digits_value-digit :
    (d a : ℕ) (s : String)
    → d < 10
    → digits_value a (String.◌∷◌ (digit d) s) ≡ digits_value (a * 10 + d) s
unfolding digit digits_value
digits_value-digit zero a s h = ap (λ (k : ℕ). digits_value k s) (omega arith)
digits_value-digit (suc zero) a s h = ap (λ (k : ℕ). digits_value k s) (omega arith)
digits_value-digit (suc (suc zero)) a s h = ap (λ (k : ℕ). digits_value k s) (omega arith)
digits_value-digit (suc (suc (suc zero))) a s h = ap (λ (k : ℕ). digits_value k s) (omega arith)
digits_value-digit (suc (suc (suc (suc zero)))) a s h =
    ap (λ (k : ℕ). digits_value k s) (omega arith)
digits_value-digit (suc (suc (suc (suc (suc zero))))) a s h =
    ap (λ (k : ℕ). digits_value k s) (omega arith)
digits_value-digit (suc (suc (suc (suc (suc (suc zero)))))) a s h =
    ap (λ (k : ℕ). digits_value k s) (omega arith)
digits_value-digit (suc (suc (suc (suc (suc (suc (suc zero))))))) a s h =
    ap (λ (k : ℕ). digits_value k s) (omega arith)
digits_value-digit (suc (suc (suc (suc (suc (suc (suc (suc zero)))))))) a s h =
    ap (λ (k : ℕ). digits_value k s) (omega arith)
digits_value-digit (suc (suc (suc (suc (suc (suc (suc (suc (suc zero))))))))) a s h =
    ap (λ (k : ℕ). digits_value k s) (omega arith)
digits_value-digit (suc (suc (suc (suc (suc (suc (suc (suc (suc (suc n)))))))))) a s h =
    absurd (omega arith)

unsigned_value-digit :
    (d : ℕ) (s : String) → d < 10 → unsigned_value (String.◌∷◌ (digit d) s) ≡ digits_value d s
unfolding digit digits_value
unsigned_value-digit zero s h = refl
unsigned_value-digit (suc zero) s h = refl
unsigned_value-digit (suc (suc zero)) s h = refl
unsigned_value-digit (suc (suc (suc zero))) s h = refl
unsigned_value-digit (suc (suc (suc (suc zero)))) s h = refl
unsigned_value-digit (suc (suc (suc (suc (suc zero))))) s h = refl
unsigned_value-digit (suc (suc (suc (suc (suc (suc zero)))))) s h = refl
unsigned_value-digit (suc (suc (suc (suc (suc (suc (suc zero))))))) s h = refl
unsigned_value-digit (suc (suc (suc (suc (suc (suc (suc (suc zero)))))))) s h = refl
unsigned_value-digit (suc (suc (suc (suc (suc (suc (suc (suc (suc zero))))))))) s h = refl
unsigned_value-digit (suc (suc (suc (suc (suc (suc (suc (suc (suc (suc n)))))))))) s h =
    absurd (omega arith)

unsigned_value-decimal_before :
    (fuel n : ℕ) (s : String)
    → n < fuel
    → unsigned_value (decimal_before fuel n s) ≡ digits_value n s
unfolding decimal_before
unsigned_value-decimal_before zero n s h = absurd (omega arith)
unsigned_value-decimal_before (suc fuel) n s h = elim (Bool-cases (ltb n 10)) [
  | inl small ↦ rw (small, decimal_before) (unsigned_value-digit n s (ltb-lt n 10 small))
  | inr large ↦
      let ge = ltb-ge n 10 large in
      rw (large, decimal_before)
        (unsigned_value-decimal_before fuel (n / 10) (String.◌∷◌ (digit (n % 10)) s) (omega arith)
          ∙ digits_value-digit (n % 10) (n / 10) s (omega arith)
          ∙ ap (λ (k : ℕ). digits_value k s) (omega arith))
]

unsigned_value-decimal : (n : ℕ) → unsigned_value (decimal n) ≡ some n
unfolding decimal digits_value
unsigned_value-decimal n = unsigned_value-decimal_before (n + 1) n "" (omega arith)

less-true : (a b : ℕ) → a < b → ltb a b ≡ true
less-true a b h = ground arith

-- A uint64 that is printed in decimal is read back.
pub parse_uint-decimal : (n : ℕ) → n < 2 ^ 64 → parse_uint (decimal n) ≡ some n
unfolding parse_uint decimal digits_value
parse_uint-decimal n h =
    rw (read, parse_uint) (ap (λ (b : Bool). if b then some n else none) (less-true n (2 ^ 64) h))
  where
    read : unsigned_value (decimal n) ≡ some n
    read = unsigned_value-decimal n
