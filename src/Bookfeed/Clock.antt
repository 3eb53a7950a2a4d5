-- ===== src/Bookfeed/Clock.antt =====
-- The exchange time of a snapshot (internal/bookfeed/snapshot.go, ExchangeTime).
use fillwire.Bookfeed.{exchange_time, not_after, not_before, half_day_ns, ltb_ℤ}
use fillwire.Decode.Record.{clock_seconds, on_day_of, day_ns, hour_ns, floor_days, second_ns}
use fillwire.Decode.Record.Time.{floor_days-near, clock_seconds-less, day_before}
use fillwire.Prelude.{
  refl, ℕ, String, Option, some, none, ◌≡◌, arith, codes, ◌<◌, Option-cases, Bool-cases, ◌*◌, inl,
  ltb-lt, inr, some-eq, ltb-ge, ap, suc,
}
use fillwire.Prelude.Int.{
  ℤ, pos, ◌≤ℤ◌, ◌+ℤ◌, ◌-ℤ◌, int_laws, ltb_ℤ, ◌*ℤ◌, pos_part, negsuc, neg_part,
}
use Prim.Native.Nat.{zero}

not_after-near :
    (t at : ℤ)
    → (t -ℤ pos day_ns) ≤ℤ at
    → at ≤ℤ (t +ℤ pos day_ns)
    → ((t -ℤ pos day_ns) ≤ℤ not_after t at) × (not_after t at ≤ℤ t +ℤ pos half_day_ns)
not_after-near t at lo hi = elim (Bool-cases (ltb_ℤ (pos half_day_ns) (at -ℤ t))) [
  | inl far ↦ let lt = ltb-lt _ _ far in rw far (omega int_laws, omega int_laws)
  | inr near ↦ let le = ltb-ge _ _ near in rw near (lo, omega int_laws)
]

not_before-near :
    (t at : ℤ)
    → (t -ℤ pos day_ns) ≤ℤ at
    → at ≤ℤ (t +ℤ pos half_day_ns)
    → ((t -ℤ pos half_day_ns) ≤ℤ not_before t at) × (not_before t at ≤ℤ t +ℤ pos half_day_ns)
not_before-near t at lo hi = elim (Bool-cases (ltb_ℤ (pos half_day_ns) (t -ℤ at))) [
  | inl far ↦ let lt = ltb-lt _ _ far in rw far (omega int_laws, omega int_laws)
  | inr near ↦ let le = ltb-ge _ _ near in rw near (omega int_laws, hi)
]

on_day_of-near :
    (t : ℤ) (s : ℕ)
    → s < 86400
    → ((t -ℤ pos day_ns) ≤ℤ on_day_of t s) × (on_day_of t s ≤ℤ t +ℤ pos day_ns)
unfolding on_day_of
on_day_of-near t s less =
    let (lo, hi) = floor_days-near (t +ℤ pos (9 * hour_ns)) in (omega int_laws, omega int_laws)

-- The time has a clock in KST, in seconds of its day.
abbrev pub HasClock : ℕ → ℤ → Type 0
HasClock s at = (days : ℤ) × (at +ℤ pos (9 * hour_ns) ≡ (days *ℤ pos day_ns) +ℤ pos (s * second_ns))

day_after : (a : ℤ) → (a +ℤ pos 1) *ℤ pos day_ns ≡ (a *ℤ pos day_ns) +ℤ pos day_ns
unfolding ◌*ℤ◌ ◌+ℤ◌
day_after (pos n) = ground arith
day_after (negsuc zero) = refl
day_after (negsuc (suc n)) = ground arith

day_before-HasClock : (s : ℕ) (at : ℤ) → HasClock s at → HasClock s (at -ℤ pos day_ns)
day_before-HasClock s at (days, h) =
    (days -ℤ pos 1, rw (day_before days) (earlier at (days *ℤ pos day_ns) (s * second_ns) h))
  where
    earlier :
        (x d : ℤ) (n : ℕ)
        → x +ℤ pos (9 * hour_ns) ≡ d +ℤ pos n
        → x -ℤ pos day_ns +ℤ pos (9 * hour_ns) ≡ d -ℤ pos day_ns +ℤ pos n
    earlier x d n k = let p = ap pos_part k in let q = ap neg_part k in omega int_laws

day_after-HasClock : (s : ℕ) (at : ℤ) → HasClock s at → HasClock s (at +ℤ pos day_ns)
day_after-HasClock s at (days, h) =
    (days +ℤ pos 1, rw (day_after days) (later at (days *ℤ pos day_ns) (s * second_ns) h))
  where
    later :
        (x d : ℤ) (n : ℕ)
        → x +ℤ pos (9 * hour_ns) ≡ d +ℤ pos n
        → x +ℤ pos day_ns +ℤ pos (9 * hour_ns) ≡ d +ℤ pos day_ns +ℤ pos n
    later x d n k = let p = ap pos_part k in let q = ap neg_part k in omega int_laws

not_after-HasClock : (s : ℕ) (t at : ℤ) → HasClock s at → HasClock s (not_after t at)
not_after-HasClock s t at h = elim (Bool-cases (ltb_ℤ (pos half_day_ns) (at -ℤ t))) [
  | inl far ↦ rw far (day_before-HasClock s at h)
  | inr near ↦ rw near h
]

not_before-HasClock : (s : ℕ) (t at : ℤ) → HasClock s at → HasClock s (not_before t at)
not_before-HasClock s t at h = elim (Bool-cases (ltb_ℤ (pos half_day_ns) (t -ℤ at))) [
  | inl far ↦ rw far (day_after-HasClock s at h)
  | inr near ↦ rw near h
]

on_day_of-HasClock : (t : ℤ) (s : ℕ) → HasClock s (on_day_of t s)
unfolding on_day_of
on_day_of-HasClock t s = (
  floor_days (t +ℤ pos (9 * hour_ns)),
  back (floor_days (t +ℤ pos (9 * hour_ns)) *ℤ pos day_ns) (s * second_ns),
)
  where
    back : (d : ℤ) (n : ℕ) → d +ℤ pos n -ℤ pos (9 * hour_ns) +ℤ pos (9 * hour_ns) ≡ d +ℤ pos n
    back d n = omega int_laws

-- The exchange time that is found for a clock has this clock in KST, and is at most twelve hours before
-- or after the time of receipt.
pub exchange_time-near :
    (hour : String) (received at : ℤ)
    → exchange_time hour received ≡ some at
    → (s : ℕ) × (clock_seconds (codes hour) ≡ some s)
      × HasClock s at
      × ((received -ℤ pos half_day_ns) ≤ℤ at)
      × (at ≤ℤ received +ℤ pos half_day_ns)
unfolding exchange_time
exchange_time-near hour received at h = elim (Option-cases (clock_seconds (codes hour))) [
  | inl bad ↦ absurd (refuted (rw (bad, exchange_time) at h))
  | inr (s, good) ↦
      let (lo, hi) = on_day_of-near received s (clock_seconds-less (codes hour) s good) in
      let (lo', hi') = not_after-near received (on_day_of received s) lo hi in
      let (lo'', hi'') =
        not_before-near received (not_after received (on_day_of received s)) lo' hi' in
      let clock =
        not_before-HasClock s received (not_after received (on_day_of received s))
          (not_after-HasClock s received (on_day_of received s) (on_day_of-HasClock received s)) in
      rw (← some-eq (rw (good, exchange_time) at h)) (s, good, clock, lo'', hi'')
]
  where
    refuted : {x : ℤ} → ◌≡◌ {A = Option ℤ} none (some x) → ⊥
    refuted k = cc
