-- ===== src/Book/Detect.antt =====
-- internal/book/detect.go: the verdict on each book and trade record. A map of cursors is an
-- association list by symbol. Go compares the hours as bytes: the order of the
-- code points, which is the same for UTF-8.
pub mod Day
pub mod Runs
pub mod Tape
use fillwire.Book.Frame.{BookRecord, TradeRecord, Frame}
use fillwire.Prelude.{
  String, true, false, [], Option, List, Bool, ◌∷◌, ◌++◌, ℕ, none, if◌then◌else◌, codes, ◌==◌,
  str_eq, some, not, ◌||◌, ltb,
}
use fillwire.Prelude.Int.{ℤ, pos, ltb_ℤ, eq_ℤ}
use fillwire.Prelude.Word.{sub64, quot64, add64}

pub data Class : Type 0 where
  class_ok class_gap class_duplicate class_regress : Class

-- `Class.Applied`.
abbrev pub is_applied : Class → Bool
is_applied class_ok = true
is_applied class_gap = true
is_applied _ = false

pub record Verdict : Type 0 where
  pub symbol : String
  pub class : Class
  pub resync : Bool
  pub missing_vol : ℤ

pub record BookCursor : Type 0 where
  pub text : String
  pub hour : String
  pub synced : Bool

pub record TradeCursor : Type 0 where
  pub acml : ℤ
  pub text : String
  pub resync : Bool
  pub restart : Bool

-- `tracker`.
pub record Tracker : Type 0 where
  pub books : List (String × BookCursor)
  pub trades : List (String × TradeCursor)
  pub day : ℤ

-- `newTracker`.
abbrev pub new_tracker : Tracker
new_tracker = record { books = []; trades = []; day = pos 0 }

module _ {ℓ} {A : Type ℓ} where
  unfoldable pub lookup : String → List (String × A) → Option A
  lookup k [] = none
  lookup k ((j, a) ∷ es) = if str_eq j k then some a else lookup k es

  -- The value under the key, in place of the one there, or a new entry.
  unfoldable pub put : String → A → List (String × A) → List (String × A)
  put k a [] = (k, a) ∷ []
  put k a ((j, b) ∷ es) = let rest = put k a es in if str_eq j k then (j, a) ∷ es else (j, b) ∷ rest

  abbrev pub map_values : (A → A) → List (String × A) → List (String × A)
  map_values f [] = []
  map_values f ((j, a) ∷ es) = (j, f a) ∷ map_values f es

-- `s < t` of Go strings.
abbrev pub codes_before : List ℕ → List ℕ → Bool
codes_before cs [] = false
codes_before [] (d ∷ ds) = true
codes_before (c ∷ cs) (d ∷ ds) = let rest = codes_before cs ds in if c == d then rest else ltb c d

abbrev pub str_before : String → String → Bool
str_before s t = codes_before (codes s) (codes t)

abbrev pub day_ns : ℤ
day_ns = pos 86400000000000

-- `kstOffset`, nine hours.
abbrev pub kst_offset : ℤ
kst_offset = pos 32400000000000

-- `exchangeDay`.
unfoldable pub exchange_day : ℤ → ℤ
exchange_day at_ns = quot64 (add64 at_ns kst_offset) day_ns

abbrev pub unsync : BookCursor → BookCursor
unsync c = record c { synced = false }

abbrev pub mark_resync : TradeCursor → TradeCursor
mark_resync c = record c { resync = true }

abbrev pub mark_restart : TradeCursor → TradeCursor
mark_restart c = record c { restart = true }

-- `reconnect`.
unfoldable pub reconnect : Tracker → Tracker
reconnect t = record t {
  books = map_values unsync t.books;
  trades = map_values mark_resync t.trades;
}

-- `startDay`.
unfoldable pub start_day : Tracker → Tracker
start_day t = record t {
  books = map_values unsync t.books;
  trades = map_values mark_restart t.trades;
}

abbrev pub verdict : String → Class → Bool → ℤ → Verdict
verdict s c r m = record { symbol = s; class = c; resync = r; missing_vol = m }

-- What `book` makes of the cursor of the record's symbol.
unfoldable pub book_verdict : Option BookCursor → BookRecord → Verdict × BookCursor
book_verdict none r = (
  verdict r.symbol class_ok false (pos 0),
  record { text = r.text; hour = r.hour; synced = true },
)
book_verdict (some c) r =
    let next : BookCursor = record { text = r.text; hour = r.hour; synced = true } in
    if not c.synced
    then (verdict r.symbol class_ok true (pos 0), next)
    else if str_eq r.text c.text
    then (verdict r.symbol class_duplicate false (pos 0), c)
    else if str_before r.hour c.hour
    then (verdict r.symbol class_regress false (pos 0), c)
    else (verdict r.symbol class_ok false (pos 0), next)

-- The end of `trade`, with the resync that the verdict carries.
unfoldable pub trade_continues : Bool → TradeCursor → TradeRecord → Verdict × TradeCursor
trade_continues resync c r =
    let previous = sub64 r.acml_vol r.qty in
    let next : TradeCursor = record c { acml = r.acml_vol; text = r.text } in
    if str_eq r.text c.text || eq_ℤ r.acml_vol c.acml
    then (verdict r.symbol class_duplicate resync (pos 0), c)
    else if ltb_ℤ r.acml_vol c.acml
    then (verdict r.symbol class_regress resync (pos 0), c)
    else if ltb_ℤ c.acml previous
    then (verdict r.symbol class_gap resync (sub64 previous c.acml), next)
    else (verdict r.symbol class_ok resync (pos 0), next)

-- The test of the first trade behind a reconnect.
unfoldable pub trade_resync : TradeCursor → TradeRecord → Verdict × TradeCursor
unfolding trade_continues
trade_resync c r =
    let c' : TradeCursor = record c { resync = false } in
    if ltb_ℤ r.acml_vol c.acml
    then (verdict r.symbol class_ok true (pos 0), record c' { acml = r.acml_vol; text = r.text })
    else trade_continues true c' r

abbrev pub fresh_cursor : TradeRecord → TradeCursor
fresh_cursor r = record { acml = r.acml_vol; text = r.text; resync = false; restart = false }

-- What `trade` makes of the cursor of the record's symbol.
unfoldable pub trade_verdict : Option TradeCursor → TradeRecord → Verdict × TradeCursor
unfolding trade_resync
trade_verdict none r = (verdict r.symbol class_ok false (pos 0), fresh_cursor r)
trade_verdict (some c) r =
    if c.restart
    then (verdict r.symbol class_ok true (pos 0), fresh_cursor r)
    else if c.resync
    then trade_resync c r
    else trade_continues false c r

-- `book`.
unfoldable pub book : Tracker → BookRecord → Verdict × Tracker
unfolding book_verdict
book t r =
    let (v, c) = book_verdict (lookup r.symbol t.books) r in
    (v, record t { books = put r.symbol c t.books })

-- `trade`.
unfoldable pub trade : Tracker → TradeRecord → Verdict × Tracker
unfolding trade_verdict
trade t r =
    let (v, c) = trade_verdict (lookup r.symbol t.trades) r in
    (v, record t { trades = put r.symbol c t.trades })

unfoldable pub book_all : Tracker → List BookRecord → List Verdict × Tracker
book_all t [] = ([], t)
book_all t (r ∷ rs) = let (v, t') = book t r in let (vs, t'') = book_all t' rs in (v ∷ vs, t'')

unfoldable pub trade_all : Tracker → List TradeRecord → List Verdict × Tracker
trade_all t [] = ([], t)
trade_all t (r ∷ rs) = let (v, t') = trade t r in let (vs, t'') = trade_all t' rs in (v ∷ vs, t'')

-- The test for a later exchange day at the head of `frame`; the Boolean is `newDay`.
unfoldable pub turn_day : Tracker → ℤ → Bool × Tracker
unfolding start_day
turn_day t at_ns =
    let d = exchange_day at_ns in
    if not (ltb_ℤ t.day d)
    then (false, t)
    else if eq_ℤ t.day (pos 0)
    then (false, record t { day = d })
    else (true, start_day (record t { day = d }))

-- `frame`.
unfoldable pub frame : Tracker → Frame → ℤ → List Verdict × Bool × Tracker
unfolding turn_day book_all trade_all
frame t f at_ns =
    let (new_day, t1) = turn_day t at_ns in
    let (vs, t2) = book_all t1 f.books in
    let (ws, t3) = trade_all t2 f.trades in (vs ++ ws, new_day, t3)
