-- ===== src/Exec/Tick.antt =====
-- internal/exec/tick.go: the KRX equity tick table. Prices are int64 values.
pub mod Grid
use fillwire.Prelude.{ℕ, ◌*◌, List, [], ◌∷◌, if◌then◌else◌, ◌==◌}
use fillwire.Prelude.Int.{ℤ, pos, ltb_ℤ, eq_ℤ, min_ℤ, max_ℤ, rem}
use fillwire.Prelude.Word.{add64, sub64}
use fillwire.Exec.Side.{Side, is_buy}

-- `krxBands`: the bound below which a tick is used, and the tick.
abbrev pub krx_bands : List (ℤ × ℤ)
krx_bands =
    (pos 2000, pos 1)
    ∷ (pos 5000, pos 5)
    ∷ (pos 20000, pos 10)
    ∷ (pos 50000, pos 50)
    ∷ (pos 200000, pos 100)
    ∷ (pos 500000, pos 500)
    ∷ []

-- The loop of `TickAt`.
abbrev pub tick_in : List (ℤ × ℤ) → ℤ → ℤ
tick_in [] p = pos 1000
tick_in ((below, tick) ∷ bands) p = if ltb_ℤ p below then tick else tick_in bands p

unfoldable pub tick_at : ℤ → ℤ
tick_at p = tick_in krx_bands p

unfoldable pub floor_tick : ℤ → ℤ
floor_tick p = if ltb_ℤ p (pos 1) then pos 0 else sub64 p (rem p (tick_at p))

unfoldable pub ceil_tick : ℤ → ℤ
ceil_tick p =
    if ltb_ℤ p (pos 1)
    then pos 0
    else let r = rem p (tick_at p) in if eq_ℤ r (pos 0) then p else add64 (sub64 p r) (tick_at p)

unfoldable pub step_toward : Side → ℤ → ℤ → ℤ
step_toward side p cap =
    if is_buy side
    then min_ℤ (add64 p (tick_at p)) cap
    else max_ℤ (sub64 p (tick_at (sub64 p (pos 1)))) cap
