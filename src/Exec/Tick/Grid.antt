-- ===== src/Exec/Tick/Grid.antt =====
-- The tick functions of internal/exec/tick.go against the grid of prices that the table allows.
use fillwire.Prelude.{
  refl, ℕ, ◌-◌, ◌%◌, ◌≤◌, ◌<◌, ◌≡◌, arith, ◌+◌, ◌^◌, if◌then◌else◌, ◌==◌, leb, leb-true, Bool-cases,
  inl, leb-le, inr,
}
use fillwire.Prelude.Int.{ℤ, pos, pos_part, rem, ◌≤ℤ◌, ◌<ℤ◌}
use fillwire.Exec.Tick.{krx_bands, tick_in, tick_at, floor_tick, ceil_tick, step_toward}
use fillwire.Prelude.Word.{sub64-pos, add64-pos}
use fillwire.Exec.Side.{sell, buy}

-- A price that is a whole number of its own ticks.
abbrev pub IsGrid : ℤ → Type 0
IsGrid p = rem p (tick_at p) ≡ pos 0

-- The same of a natural number.
abbrev tick_ℕ : ℕ → ℕ
tick_ℕ n = pos_part (tick_in krx_bands (pos n))

abbrev IsGrid_ℕ : ℕ → Type 0
IsGrid_ℕ n = n % tick_ℕ n ≡ 0

tick_at-tick_ℕ : (n : ℕ) → tick_at (pos n) ≡ pos (tick_ℕ n)
unfolding tick_at
tick_at-tick_ℕ n = ground arith

floor_ℕ-IsGrid : (n : ℕ) → IsGrid_ℕ (n - n % tick_ℕ n)
floor_ℕ-IsGrid n = ground arith

floor_ℕ-greatest : (n m : ℕ) → IsGrid_ℕ m → m ≤ n → m ≤ n - n % tick_ℕ n
floor_ℕ-greatest n m g h = ground arith

tick_ℕ-pos : (n : ℕ) → (0 < tick_ℕ n) × (tick_ℕ n ≤ 1000)
tick_ℕ-pos n = ground arith

ceil_ℕ : ℕ → ℕ
ceil_ℕ n = if n % tick_ℕ n == 0 then n else n - n % tick_ℕ n + tick_ℕ n

ceil_ℕ-IsGrid : (n : ℕ) → IsGrid_ℕ (ceil_ℕ n)
unfolding ceil_ℕ
ceil_ℕ-IsGrid n = ground arith

ceil_ℕ-least : (n m : ℕ) → IsGrid_ℕ m → n ≤ m → ceil_ℕ n ≤ m
unfolding ceil_ℕ
ceil_ℕ-least n m g h = ground arith

ceil_ℕ_bounds : (n : ℕ) → (n ≤ ceil_ℕ n) × (ceil_ℕ n ≤ n + 999)
unfolding ceil_ℕ
ceil_ℕ_bounds n = ground arith

IsGrid→ℕ : (n : ℕ) → IsGrid (pos n) → IsGrid_ℕ n
IsGrid→ℕ n g = ground (arith, tick_at-tick_ℕ n)

ℕ→IsGrid : (n : ℕ) → IsGrid_ℕ n → IsGrid (pos n)
ℕ→IsGrid n g = ground (arith, tick_at-tick_ℕ n)

pub floor_tick-pos : (n : ℕ) → 1 ≤ n → n < 2 ^ 63 → floor_tick (pos n) ≡ pos (n - n % tick_ℕ n)
unfolding floor_tick
floor_tick-pos n h k = ground (arith, tick_at-tick_ℕ n, sub64-pos n (n % tick_ℕ n), tick_ℕ-pos n)

ceil_tick-pos : (n : ℕ) → 1 ≤ n → n + 1000 < 2 ^ 63 → ceil_tick (pos n) ≡ pos (ceil_ℕ n)
unfolding ceil_tick ceil_ℕ
ceil_tick-pos n h k = ground (
  arith,
  tick_at-tick_ℕ n,
  tick_ℕ-pos n,
  sub64-pos n (n % tick_ℕ n),
  add64-pos (n - n % tick_ℕ n) (tick_ℕ n),
)

-- For an int64 price of 1 or more, `FloorTick` is a grid price, it is at or below the price, and
-- every grid price at or below the price is at or below it.
pub floor_tick-greatest :
    (n g : ℕ)
    → 1 ≤ n
    → n < 2 ^ 63
    → IsGrid (pos g)
    → g ≤ n
    → IsGrid (floor_tick (pos n)) × (floor_tick (pos n) ≤ℤ pos n) × (pos g ≤ℤ floor_tick (pos n))
floor_tick-greatest n g h k grid below = rw (floor_tick-pos n h k) (
  ℕ→IsGrid (n - n % tick_ℕ n) (floor_ℕ-IsGrid n),
  omega arith,
  omega (arith, floor_ℕ-greatest n g (IsGrid→ℕ g grid) below),
)

-- For an int64 price of 1 or more, more than 1000 below 2 ^ 63, `CeilTick` is a grid price, it is at
-- or above the price, and every grid price at or above the price is at or above it.
pub ceil_tick-least :
    (n g : ℕ)
    → 1 ≤ n
    → n + 1000 < 2 ^ 63
    → IsGrid (pos g)
    → n ≤ g
    → IsGrid (ceil_tick (pos n)) × (pos n ≤ℤ ceil_tick (pos n)) × (ceil_tick (pos n) ≤ℤ pos g)
ceil_tick-least n g h k grid above = rw (ceil_tick-pos n h k) (
  ℕ→IsGrid (ceil_ℕ n) (ceil_ℕ-IsGrid n),
  omega (arith, ceil_ℕ_bounds n),
  omega (arith, ceil_ℕ-least n g (IsGrid→ℕ g grid) above),
)

-- The step of a buy, on natural numbers.
up_ℕ : ℕ → ℕ → ℕ
up_ℕ n c = if leb (n + tick_ℕ n) c then n + tick_ℕ n else c

step_toward-buy : (n c : ℕ) → n + 1000 < 2 ^ 63 → step_toward buy (pos n) (pos c) ≡ pos (up_ℕ n c)
unfolding step_toward up_ℕ
step_toward-buy n c h = ground (arith, tick_at-tick_ℕ n, tick_ℕ-pos n, add64-pos n (tick_ℕ n))

above_tick : (n : ℕ) → IsGrid_ℕ n → IsGrid_ℕ (n + tick_ℕ n)
above_tick n g = ground arith

next_grid : (n g : ℕ) → IsGrid_ℕ n → IsGrid_ℕ g → n < g → n + tick_ℕ n ≤ g
next_grid n g gn gg above = ground arith

up_ℕ-next :
    (n c g : ℕ)
    → IsGrid_ℕ n
    → IsGrid_ℕ c
    → IsGrid_ℕ g
    → n < g
    → g ≤ c
    → IsGrid_ℕ (up_ℕ n c) × (n < up_ℕ n c) × (up_ℕ n c ≤ g)
unfolding up_ℕ
up_ℕ-next n c g gn gc gg above below =
    let h : n + tick_ℕ n ≤ g = next_grid n g gn gg above in
    rw (leb-true (n + tick_ℕ n) c (omega arith)) (above_tick n gn, omega (arith, tick_ℕ-pos n), h)

-- The step of a sell, on natural numbers.
down_ℕ : ℕ → ℕ → ℕ
down_ℕ n c = if leb (n - tick_ℕ (n - 1)) c then c else n - tick_ℕ (n - 1)

step_toward-sell :
    (n c : ℕ)
    → 1 ≤ n
    → n < 2 ^ 63
    → IsGrid_ℕ n
    → step_toward sell (pos n) (pos c) ≡ pos (down_ℕ n c)
unfolding step_toward down_ℕ
step_toward-sell n c h k grid =
    ground (
      arith,
      sub64-pos n 1,
      tick_at-tick_ℕ (n - 1),
      tick_ℕ-pos (n - 1),
      sub64-pos n (tick_ℕ (n - 1)),
    )

below_tick : (n : ℕ) → IsGrid_ℕ n → IsGrid_ℕ (n - tick_ℕ (n - 1))
below_tick n g = ground arith

previous_grid : (n g : ℕ) → IsGrid_ℕ n → IsGrid_ℕ g → g < n → g ≤ n - tick_ℕ (n - 1)
previous_grid n g gn gg below = ground arith

down_ℕ-next :
    (n c g : ℕ)
    → IsGrid_ℕ n
    → IsGrid_ℕ c
    → IsGrid_ℕ g
    → g < n
    → c ≤ g
    → IsGrid_ℕ (down_ℕ n c) × (down_ℕ n c < n) × (g ≤ down_ℕ n c)
unfolding down_ℕ
down_ℕ-next n c g gn gc gg below above =
    let h : g ≤ n - tick_ℕ (n - 1) = previous_grid n g gn gg below in
    elim (Bool-cases (leb (n - tick_ℕ (n - 1)) c)) [
      | inl e ↦ rw e (gc, omega arith, omega (arith, leb-le (n - tick_ℕ (n - 1)) c e))
      | inr e ↦ rw e (below_tick n gn, omega (arith, tick_ℕ-pos (n - 1)), h)
    ]

-- `stepToward` of a buy, from a grid price below a grid cap: for every grid price above the first
-- and at or below the cap, the step ends on the grid, above where it began, and at or below that
-- price. So it is the next grid price, and with that price the cap it never passes the cap.
pub step_toward-next_up :
    (n c g : ℕ)
    → n + 1000 < 2 ^ 63
    → IsGrid (pos n)
    → IsGrid (pos c)
    → IsGrid (pos g)
    → n < g
    → g ≤ c
    → let p = step_toward buy (pos n) (pos c) in IsGrid p × (pos n <ℤ p) × (p ≤ℤ pos g)
step_toward-next_up n c g k gn gc gg above below =
    let (grid, more, most) =
      up_ℕ-next n c g (IsGrid→ℕ n gn) (IsGrid→ℕ c gc) (IsGrid→ℕ g gg) above below in
    rw (step_toward-buy n c k) (ℕ→IsGrid (up_ℕ n c) grid, omega arith, omega arith)

-- `stepToward` of a sell, from a grid price above a grid cap: for every grid price below the first
-- and at or above the cap, the step ends on the grid, below where it began, and at or above that
-- price.
pub step_toward-next_down :
    (n c g : ℕ)
    → n < 2 ^ 63
    → IsGrid (pos n)
    → IsGrid (pos c)
    → IsGrid (pos g)
    → g < n
    → c ≤ g
    → let p = step_toward sell (pos n) (pos c) in IsGrid p × (p <ℤ pos n) × (pos g ≤ℤ p)
step_toward-next_down n c g k gn gc gg below above =
    let (grid, less, least) =
      down_ℕ-next n c g (IsGrid→ℕ n gn) (IsGrid→ℕ c gc) (IsGrid→ℕ g gg) below above in
    rw (step_toward-sell n c (omega arith) k (IsGrid→ℕ n gn))
      (ℕ→IsGrid (down_ℕ n c) grid, omega arith, omega arith)

pub floor_tick_bounds :
    (n : ℕ)
    → 1 ≤ n
    → n < 2 ^ 63
    → IsGrid (floor_tick (pos n)) × (floor_tick (pos n) ≤ℤ pos n) × (pos 0 ≤ℤ floor_tick (pos n))
floor_tick_bounds n h k = floor_tick-greatest n 0 h k (ℕ→IsGrid 0 refl) (omega arith)

pub ceil_tick_bounds :
    (n : ℕ)
    → 1 ≤ n
    → n + 1000 < 2 ^ 63
    → IsGrid (ceil_tick (pos n))
      × (pos n ≤ℤ ceil_tick (pos n))
      × (ceil_tick (pos n) ≤ℤ pos (n + 999))
ceil_tick_bounds n h k = rw (ceil_tick-pos n h k) (
  ℕ→IsGrid (ceil_ℕ n) (ceil_ℕ-IsGrid n),
  omega (arith, ceil_ℕ_bounds n),
  omega (arith, ceil_ℕ_bounds n),
)
