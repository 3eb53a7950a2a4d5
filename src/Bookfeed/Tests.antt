-- ===== src/Bookfeed/Tests.antt =====
-- The theorems on internal/bookfeed at concrete inputs.
use fillwire.Bookfeed.{exchange_time, half_day_ns, ℕ, clock_seconds, codes}
use fillwire.Bookfeed.Clock.{exchange_time-near, HasClock}
use fillwire.Prelude.{refl, some, ◌≡◌, ℕ, codes}
use fillwire.Prelude.Int.{pos, ◌≤ℤ◌, ◌+ℤ◌, ◌-ℤ◌, ◌*ℤ◌}
use fillwire.Decode.Record.{clock_seconds}

-- Received at 07:13:20 in Korea: 23:30 was in the evening before.
evening : exchange_time "233000" (pos 1700000000000000000) ≡ some (pos 1699972200000000000)
unfolding exchange_time ◌+ℤ◌ ◌-ℤ◌ ◌*ℤ◌
evening = refl

exchange_time-near_example :
    (s : ℕ) × (clock_seconds (codes "233000") ≡ some s)
    × HasClock s (pos 1699972200000000000)
    × ((pos 1700000000000000000 -ℤ pos half_day_ns) ≤ℤ pos 1699972200000000000)
    × (pos 1699972200000000000 ≤ℤ pos 1700000000000000000 +ℤ pos half_day_ns)
exchange_time-near_example =
    exchange_time-near "233000" (pos 1700000000000000000) (pos 1699972200000000000) evening
