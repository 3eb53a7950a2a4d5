-- ===== src/Quote/Session.antt =====
-- internal/quote/session.go: the labels of the sessions, and the times the quote socket is open.
-- A time is a number of nanoseconds behind the zero `time.Time`. The time zones are the parameter
-- `Zones`, and `sort.Slice` is the parameter `sort`.
pub mod Merge
use fillwire.Prelude.{
  ℕ, List, [], ◌∷◌, ◌++◌, Bool, true, false, String, some, not, leb, if◌then◌else◌, Option, ◌==◌,
  ◌+◌, ◌*◌, ◌&&◌, suc, none, ltb, is_none,
}
use fillwire.Prelude.Int.{ℤ, ◌-ℤ◌, ◌+ℤ◌, pos}
use Prim.Native.Nat.{zero}

pub data Market : Type 0 where
  kr us : Market
  other_market : String → Market

-- `window`, in seconds after local midnight.
pub record SessionWindow : Type 0 where
  pub name : String
  pub start : ℕ
  pub end : ℕ

abbrev minute : ℕ
minute = 60

abbrev pub window : String → ℕ → ℕ → SessionWindow
window n s e = record { name = n; start = s; end = e }

-- `sessionWindows`.
unfoldable pub session_windows : Market → Option (List SessionWindow)
session_windows kr = some (
    window "nxt_pre" (8 * 60 * minute) (8 * 60 * minute + 51 * minute)
    ∷ window "krx_regular" (9 * 60 * minute) (15 * 60 * minute + 31 * minute)
    ∷ window "nxt_after" (16 * 60 * minute) (20 * 60 * minute + 1 * minute)
    ∷ [])
session_windows us = some (
    window "us_pre" (4 * 60 * minute) (9 * 60 * minute + 30 * minute)
    ∷ window "us_regular" (9 * 60 * minute + 30 * minute) (16 * 60 * minute)
    ∷ window "us_after" (16 * 60 * minute) (20 * 60 * minute + 1 * minute)
    ∷ [])
session_windows (other_market s) = none

-- What the code asks of the time zone of a market: the day that a time falls on, the second of that
-- day, the weekday of a day (Sunday is 0), and the time at a second behind the midnight of a day.
pub record Zones : Type 0 where
  pub day_of : Market → ℕ → ℤ
  pub second_of : Market → ℕ → ℕ
  pub weekday_of : Market → ℤ → ℕ
  pub at_second : Market → ℤ → ℕ → ℕ

-- `weekday`.
abbrev pub is_weekday : ℕ → Bool
is_weekday d = not (d == 0) && not (d == 6)

-- The first window that holds the second.
unfoldable pub label_of : ℕ → List SessionWindow → Option String
label_of second [] = none
label_of second (w ∷ ws) =
    if leb w.start second && ltb second w.end then some w.name else label_of second ws

-- `SessionLabel`; `none` is the answer false.
unfoldable pub session_label : Zones → Market → ℕ → Option String
unfolding session_windows label_of
session_label z m t = elim (session_windows m) [
  | none ↦ none
  | some ws ↦
      if not (is_weekday (z.weekday_of m (z.day_of m t)))
      then none
      else label_of (z.second_of m t) ws
]

-- `mergeGap`, thirty minutes.
abbrev pub merge_gap : ℕ
merge_gap = 1800000000000

pub record Interval : Type 0 where
  pub start : ℕ
  pub end : ℕ

-- The markets with windows: `NewSchedule`.
unfoldable pub new_schedule : List Market → List Market
unfolding session_windows
new_schedule [] = []
new_schedule (m ∷ ms) =
    let rest = new_schedule ms in if is_none (session_windows m) then rest else m ∷ rest

-- The windows of one day.
unfoldable pub day_intervals : Zones → Market → ℤ → List SessionWindow → List Interval
day_intervals z m d [] = []
day_intervals z m d (w ∷ ws) =
    record { start = z.at_second m d w.start; end = z.at_second m d w.end } ∷ day_intervals z m d ws

-- The days from one on, as many as the number says.
unfoldable pub days_from : Zones → Market → ℕ → ℤ → List SessionWindow → List Interval
unfolding day_intervals
days_from z m zero d ws = []
days_from z m (suc n) d ws =
    let rest = days_from z m n (d +ℤ pos 1) ws in
    if is_weekday (z.weekday_of m d) then day_intervals z m d ws ++ rest else rest

-- The twelve days from two before the time on, for every market.
unfoldable pub all_intervals : Zones → List Market → ℕ → List Interval
unfolding days_from session_windows
all_intervals z [] t = []
all_intervals z (m ∷ ms) t =
    let rest = all_intervals z ms t in
    elim (session_windows m) [
      | none ↦ rest
      | some ws ↦ days_from z m 12 (z.day_of m t -ℤ pos 2) ws ++ rest
    ]

-- The last interval with the next one joined to it.
abbrev pub join : Interval → Interval → Interval
join last next = if ltb last.end next.end then record last { end = next.end } else last

-- The loop that merges, with the last interval of `merged`.
unfoldable pub merge_from : Interval → List Interval → List Interval
merge_from last [] = last ∷ []
merge_from last (next ∷ rest) =
    let joined = merge_from (join last next) rest in
    let apart = merge_from next rest in
    if not (ltb (last.end + merge_gap) next.start) then joined else last ∷ apart

unfoldable pub merge : List Interval → List Interval
unfolding merge_from
merge [] = []
merge (x ∷ xs) = merge_from x xs

-- `intervals`.
unfoldable pub intervals : Zones → (List Interval → List Interval) → List Market → ℕ → List Interval
unfolding merge all_intervals
intervals z sort ms t = merge (sort (all_intervals z ms t))

abbrev pub holds : ℕ → Interval → Bool
holds t x = leb x.start t && ltb t x.end

-- The end of the first interval that holds the time: the loop of `At`.
unfoldable pub closes : ℕ → List Interval → Option ℕ
closes t [] = none
closes t (x ∷ xs) = if holds t x then some x.end else closes t xs

-- `At`.
unfoldable pub schedule_at : Zones → (List Interval → List Interval) → List Market → ℕ → Option ℕ
unfolding closes intervals
schedule_at z sort ms t = closes t (intervals z sort ms t)

unfoldable pub first_after : ℕ → List Interval → Option ℕ
first_after t [] = none
first_after t (x ∷ xs) = if ltb t x.start then some x.start else first_after t xs

-- `NextOpen`; without a window it is a day later.
unfoldable pub next_open : Zones → (List Interval → List Interval) → List Market → ℕ → ℕ
unfolding first_after intervals
next_open z sort ms t = elim (first_after t (intervals z sort ms t)) [
  | some s ↦ s
  | none ↦ t + 86400000000000
]
