-- ===== src/Exec/Side.antt =====
-- internal/exec/intent.go: `Side`, a string of which two values are named.
use fillwire.Prelude.{String, Bool, true, false}

pub data Side : Type 0 where
  buy sell : Side
  other_side : String → Side

-- `side == Buy`.
abbrev pub is_buy : Side → Bool
is_buy buy = true
is_buy _ = false

-- `side == Sell`.
abbrev pub is_sell : Side → Bool
is_sell sell = true
is_sell _ = false
