-- ===== src/Decode/Record/Time.antt =====
-- The time of a fill (internal/decode/decode.go, combineKSTDate).
use fillwire.Decode.Record.{
  combine_kst_date, on_day_of, clock_seconds, floor_days, day_ns, hour_ns, second_ns, codes, List,
  ltb_ℤ, all_digits, Bool, is_fraction, two_digits, ltb, true, false,
}
use fillwire.Prelude.{
  refl, List, [], ◌∷◌, ℕ, String, Option, some, none, ◌≡◌, arith, ◌*◌, codes, ◌<◌, suc,
  Option-cases, inl, inr, Bool-cases, some-eq, Bool, if◌then◌else◌, ◌&&◌, ltb, ◌+◌, true, false,
  ltb-lt, ltb-ge,
}
use fillwire.Prelude.Int.{ℤ, pos, negsuc, ◌+ℤ◌, ◌-ℤ◌, ◌*ℤ◌, ◌≤ℤ◌, ◌<ℤ◌, int_laws, ltb_ℤ}
use Prim.Native.Nat.{zero}

pub floor_days-near :
    (a : ℤ)
    → ((floor_days a *ℤ pos day_ns) ≤ℤ a) × (a <ℤ (floor_days a *ℤ pos day_ns) +ℤ pos day_ns)
unfolding ◌*ℤ◌ ◌+ℤ◌
floor_days-near (pos n) = ground arith
floor_days-near (negsuc n) = ground arith

-- A clock is within its day.
clock-less :
    (d f : Bool) (h m s n : ℕ)
    → (if d && ltb h 24 && ltb m 60 && ltb s 60 && f then some (h * 3600 + m * 60 + s) else none)
      ≡ some n
    → n < 86400
clock-less d f h m s n eq = ground arith

pub clock_seconds-less : (cs : List ℕ) (s : ℕ) → clock_seconds cs ≡ some s → s < 86400
unfolding clock_seconds
clock_seconds-less (a ∷ b ∷ c ∷ d ∷ e ∷ f ∷ rest) s h =
    clock-less (all_digits (a ∷ b ∷ c ∷ d ∷ e ∷ f ∷ [])) (is_fraction rest) (two_digits a b)
      (two_digits c d) (two_digits e f) s h
clock_seconds-less (a ∷ b ∷ c ∷ d ∷ e ∷ []) s h = cc
clock_seconds-less (a ∷ b ∷ c ∷ d ∷ []) s h = cc
clock_seconds-less (a ∷ b ∷ c ∷ []) s h = cc
clock_seconds-less (a ∷ b ∷ []) s h = cc
clock_seconds-less (a ∷ []) s h = cc
clock_seconds-less [] s h = cc

pub day_before : (a : ℤ) → (a -ℤ pos 1) *ℤ pos day_ns ≡ (a *ℤ pos day_ns) -ℤ pos day_ns
unfolding ◌*ℤ◌ ◌-ℤ◌
day_before (pos zero) = refl
day_before (pos (suc n)) = ground arith
day_before (negsuc n) = ground arith

-- The multiple of a day in front of a time in KST.
abbrev day_start : ℤ → ℤ
day_start t = floor_days (t +ℤ pos (9 * hour_ns)) *ℤ pos day_ns

-- The arithmetic of the day before, for the start of a day.
late-near :
    (t d u : ℤ) (s : ℕ)
    → d ≤ℤ (t +ℤ pos (9 * hour_ns))
    → (t +ℤ pos (9 * hour_ns)) <ℤ d +ℤ pos day_ns
    → s < 86400
    → ltb_ℤ (t +ℤ pos hour_ns) (d +ℤ pos (s * second_ns) -ℤ pos (9 * hour_ns)) ≡ true
    → d +ℤ pos (s * second_ns) -ℤ pos (9 * hour_ns) -ℤ pos day_ns ≡ u
    → (u +ℤ pos (9 * hour_ns) ≡ (d -ℤ pos day_ns) +ℤ pos (s * second_ns))
      × (t <ℤ u +ℤ pos day_ns)
      × (u ≤ℤ t +ℤ pos hour_ns)
late-near t d u s lo hi less late eq =
    let lt = ltb-lt _ _ late in
    (rw (← eq) (omega int_laws), rw (← eq) (omega int_laws), rw (← eq) (omega int_laws))

near-near :
    (t d u : ℤ) (s : ℕ)
    → d ≤ℤ (t +ℤ pos (9 * hour_ns))
    → (t +ℤ pos (9 * hour_ns)) <ℤ d +ℤ pos day_ns
    → s < 86400
    → ltb_ℤ (t +ℤ pos hour_ns) (d +ℤ pos (s * second_ns) -ℤ pos (9 * hour_ns)) ≡ false
    → d +ℤ pos (s * second_ns) -ℤ pos (9 * hour_ns) ≡ u
    → (u +ℤ pos (9 * hour_ns) ≡ d +ℤ pos (s * second_ns))
      × (t <ℤ u +ℤ pos day_ns)
      × (u ≤ℤ t +ℤ pos hour_ns)
near-near t d u s lo hi less near eq =
    let le = ltb-ge _ _ near in
    (rw (← eq) (omega int_laws), rw (← eq) (omega int_laws), rw (← eq) (omega int_laws))

-- A time that is accepted for a fill is later than a day before the notice was received and at most
-- an hour after it, and its clock in KST is the clock that was read.
pub combine_kst_date-near :
    (t : ℤ) (text : String) (u : ℤ)
    → combine_kst_date t text ≡ some u
    → (s : ℕ) × (days : ℤ) × (clock_seconds (codes text) ≡ some s)
      × (u +ℤ pos (9 * hour_ns) ≡ (days *ℤ pos day_ns) +ℤ pos (s * second_ns))
      × (t <ℤ u +ℤ pos day_ns)
      × (u ≤ℤ t +ℤ pos hour_ns)
unfolding combine_kst_date on_day_of
combine_kst_date-near t text u h = elim (Option-cases (clock_seconds (codes text))) [
  | inl bad ↦ absurd (refuted (rw (bad, combine_kst_date) at h))
  | inr (s, good) ↦
      let (lo, hi) = floor_days-near (t +ℤ pos (9 * hour_ns)) in
      elim (Bool-cases (ltb_ℤ (t +ℤ pos hour_ns) (on_day_of t s))) [
        | inl late ↦
            let eq : on_day_of t s -ℤ pos day_ns ≡ u =
              some-eq (rw (late, combine_kst_date) at (rw (good, combine_kst_date) at h)) in
            let (clock, after, before) =
              late-near t (day_start t) u s lo hi (clock_seconds-less (codes text) s good) late
                eq in
            (
              s,
              floor_days (t +ℤ pos (9 * hour_ns)) -ℤ pos 1,
              good,
              rw (day_before (floor_days (t +ℤ pos (9 * hour_ns)))) clock,
              after,
              before,
            )
        | inr near ↦
            let eq : on_day_of t s ≡ u =
              some-eq (rw (near, combine_kst_date) at (rw (good, combine_kst_date) at h)) in
            let (clock, after, before) =
              near-near t (day_start t) u s lo hi (clock_seconds-less (codes text) s good) near
                eq in
            (s, floor_days (t +ℤ pos (9 * hour_ns)), good, clock, after, before)
      ]
]
  where
    refuted : {A : Type 0} {x : A} → ◌≡◌ {A = Option A} none (some x) → ⊥
    refuted e = cc
