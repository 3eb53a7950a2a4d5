-- ===== src/Bookfeed.antt =====
-- internal/bookfeed/snapshot.go: the snapshots of a book. A time is in nanoseconds of Unix time, and a
-- zero time is `none`. Reading and publishing on Redis, and the texts of its values, are left out.
pub mod Clock
mod Tests
use fillwire.Book.Frame.{Level}
use fillwire.Decode.Record.{clock_seconds, on_day_of, day_ns, hour_ns}
use fillwire.Quote.Symbols.{upper_or_digit, all_chars}
use fillwire.Prelude.{
  ℕ, String, List, [], ◌∷◌, Bool, true, false, Option, some, none, length, codes, ◌==◌, ◌*◌,
  if◌then◌else◌, ◌||◌, ◌&&◌, not, is_none, str_eq,
}
use fillwire.Prelude.Int.{ℤ, pos, ltb_ℤ, leb_ℤ, ◌-ℤ◌, ◌+ℤ◌}

-- `Snapshot`, with five levels on each side.
pub record Snapshot : Type 0 where
  pub symbol : String
  pub exchange : Option ℤ
  pub received : Option ℤ
  pub bids : List Level
  pub asks : List Level
  pub source : String

-- `SymbolOK`. A text of other characters than ASCII is refused, so its bytes are its characters.
abbrev pub symbol_ok : String → Bool
symbol_ok s = length (codes s) == 6 && all_chars upper_or_digit (codes s)

pub data SnapshotError : Type 0 where
  bad_identity bad_levels unordered_levels : SnapshotError

abbrev pub bad_pair : Level → Level → Bool
bad_pair b a =
    leb_ℤ b.price (pos 0)
    || leb_ℤ a.price (pos 0)
    || ltb_ℤ b.qty (pos 0)
    || ltb_ℤ a.qty (pos 0)
    || ltb_ℤ a.price b.price

-- Whether a level goes on in the wrong direction from the one in front of it, if there is one.
abbrev pub out_of_order : Option (Level × Level) → Level → Level → Bool
out_of_order none b a = false
out_of_order (some (b0, a0)) b a = ltb_ℤ b0.price b.price || ltb_ℤ a.price a0.price

-- The loop of `Validate` over the levels.
unfoldable pub check_levels :
    Option (Level × Level) → List Level → List Level → Option SnapshotError
check_levels last [] as' = none
check_levels last (b ∷ bs) [] = none
check_levels last (b ∷ bs) (a ∷ as') =
    let rest = check_levels (some (b, a)) bs as' in
    if bad_pair b a
    then some bad_levels
    else if out_of_order last b a
    then some unordered_levels
    else rest

-- `Validate`.
unfoldable pub validate_snapshot : Snapshot → Option SnapshotError
unfolding check_levels
validate_snapshot s =
    if not (symbol_ok s.symbol)
      || is_none s.exchange
      || is_none s.received
      || not (str_eq s.source "ws") && not (str_eq s.source "rest")
    then some bad_identity
    else check_levels none s.bids s.asks

-- Half a day.
abbrev pub half_day_ns : ℕ
half_day_ns = 12 * hour_ns

-- The later and the earlier correction of `ExchangeTime`.
abbrev pub not_after : ℤ → ℤ → ℤ
not_after t at = if ltb_ℤ (pos half_day_ns) (at -ℤ t) then at -ℤ pos day_ns else at

abbrev pub not_before : ℤ → ℤ → ℤ
not_before t at = if ltb_ℤ (pos half_day_ns) (t -ℤ at) then at +ℤ pos day_ns else at

-- `ExchangeTime`.
unfoldable pub exchange_time : String → ℤ → Option ℤ
unfolding clock_seconds on_day_of
exchange_time hour received = elim (clock_seconds (codes hour)) [
  | none ↦ none
  | some s ↦ some (not_before received (not_after received (on_day_of received s)))
]
