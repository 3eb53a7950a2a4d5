-- ===== src/Book/Frame.antt =====
-- internal/book/frame.go: the realtime frames and their parser. A frame is a text; a frame that is
-- not valid UTF-8 is not modelled. An error is its kind, without the text.
pub mod Parsed
use fillwire.Prelude.{
  ◌>>=◌, ℕ, zero, suc, String, List, [], ◌∷◌, true, false, some, none, ◌%◌, ◌/◌, ◌+◌, if◌then◌else◌,
  Option, Bool, ◌==◌, str_eq, not, ltb, leb, ◌||◌, ◌-◌, ◌&&◌, length, ◌*◌, codes, take, drop,
}
use Prim.Native.Char.{code}
use fillwire.Prelude.Strings.{
  trim_right_text, trim_left_text, is_digit, split_more, split, parse_int, join_text,
}
use fillwire.Prelude.Int.{ℤ, pos, leb_ℤ, ltb_ℤ}

-- `TRBook` and `TRTrade`.
abbrev pub tr_book : String
tr_book = "H0STASP0"

abbrev pub tr_trade : String
tr_trade = "H0STCNT0"

-- The numbers of the levels and of the fields.
abbrev pub depth : ℕ
depth = 10

abbrev pub book_ask1 : ℕ
book_ask1 = 3

abbrev pub book_bid1 : ℕ
book_bid1 = book_ask1 + depth

abbrev pub book_ask_qty1 : ℕ
book_ask_qty1 = book_bid1 + depth

abbrev pub book_bid_qty1 : ℕ
book_bid_qty1 = book_ask_qty1 + depth

abbrev pub book_total_ask : ℕ
book_total_ask = book_bid_qty1 + depth

abbrev pub book_total_bid : ℕ
book_total_bid = book_total_ask + 1

abbrev pub book_min_width : ℕ
book_min_width = book_total_bid + 1

abbrev pub trade_price : ℕ
trade_price = 2

abbrev pub trade_qty : ℕ
trade_qty = 12

abbrev pub trade_acml_vol : ℕ
trade_acml_vol = 13

abbrev pub trade_side_code : ℕ
trade_side_code = 21

abbrev pub trade_min_width : ℕ
trade_min_width = trade_side_code + 1

-- `ErrNotRealtime`, `ErrUnsupportedTR`, `ErrEncrypted` and `ErrMalformed`.
pub data FrameError : Type 0 where
  not_realtime unsupported_tr encrypted malformed : FrameError

pub record Level : Type 0 where
  pub price : ℤ
  pub qty : ℤ

pub record BookRecord : Type 0 where
  pub symbol : String
  pub hour : String
  pub asks : List Level
  pub bids : List Level
  pub total_ask : ℤ
  pub total_bid : ℤ
  pub text : String

pub record TradeRecord : Type 0 where
  pub symbol : String
  pub hour : String
  pub price : ℤ
  pub qty : ℤ
  pub acml_vol : ℤ
  pub side : String
  pub text : String

pub record Frame : Type 0 where
  pub tr : String
  pub books : List BookRecord
  pub trades : List TradeRecord

-- What `ParseFrame` returns: the frame, of which an error keeps the transaction, and the error.
abbrev pub Parse : Type 0
Parse = Frame × Option FrameError

abbrev pub only_tr : String → Frame
only_tr tr = record { tr = tr; books = []; trades = [] }

-- `fields[i]`; the parsers test the number of the fields first.
abbrev pub field : ℕ → List String → String
field i [] = ""
field zero (f ∷ fs) = f
field (suc i) (f ∷ fs) = field i fs

-- `numberParser.int`; `none` is the parser's error.
unfoldable pub int_field : List String → ℕ → Option ℤ
int_field fs i = let value = field i fs in if str_eq value "" then some (pos 0) else parse_int value

-- Two digits, at most the limit.
abbrev pub clock_part : ℕ → ℕ → ℕ → Bool
clock_part high c d = leb ((c - b'0') * 10 + (d - b'0')) high

-- `validateHeader` for the hour: six digits, in the range of a clock.
abbrev pub valid_clock : List ℕ → Bool
valid_clock (a ∷ b ∷ c ∷ d ∷ e ∷ f ∷ []) =
    is_digit a
    && is_digit b
    && is_digit c
    && is_digit d
    && is_digit e
    && is_digit f
    && clock_part 23 a b
    && clock_part 59 c d
    && clock_part 59 e f
valid_clock _ = false

-- `validateHeader`; true is the nil error.
unfoldable pub valid_header : String → String → Bool
valid_header symbol hour = not (str_eq symbol "") && valid_clock (codes hour)

-- The levels whose prices and quantities begin at two fields.
unfoldable pub levels : ℕ → ℕ → ℕ → List String → Option (List Level)
unfolding int_field
levels zero price qty fs = some []
levels (suc n) price qty fs = do
  p ← int_field fs price
  q ← int_field fs qty
  rest ← levels n (price + 1) (qty + 1) fs
  some (record { price = p; qty = q } ∷ rest)

-- `parseBook`; `none` is any of its errors.
unfoldable pub parse_book : List String → Option BookRecord
unfolding levels int_field valid_header
parse_book fs =
    if ltb (length fs) book_min_width || not (valid_header (field 0 fs) (field 1 fs))
    then none
    else do
      asks ← levels depth book_ask1 book_ask_qty1 fs
      bids ← levels depth book_bid1 book_bid_qty1 fs
      total_ask ← int_field fs book_total_ask
      total_bid ← int_field fs book_total_bid
      some (record {
        symbol = field 0 fs;
        hour = field 1 fs;
        asks = asks;
        bids = bids;
        total_ask = total_ask;
        total_bid = total_bid;
        text = join_text "^" fs;
      })

-- The side of a trade by its code.
abbrev pub side_of : String → Option String
side_of code =
    if str_eq code "1"
    then some "buy"
    else if str_eq code "5"
    then some "sell"
    else if str_eq code "3"
    then some "auction"
    else none

-- The tests of the volumes and of the price.
abbrev pub bad_trade : TradeRecord → Bool
bad_trade r = leb_ℤ r.qty (pos 0) || ltb_ℤ r.acml_vol r.qty || leb_ℤ r.price (pos 0)

unfoldable pub trade_fields : List String → Option TradeRecord
unfolding int_field
trade_fields fs = do
  price ← int_field fs trade_price
  qty ← int_field fs trade_qty
  acml_vol ← int_field fs trade_acml_vol
  side ← side_of (field trade_side_code fs)
  some (record {
    symbol = field 0 fs;
    hour = field 1 fs;
    price = price;
    qty = qty;
    acml_vol = acml_vol;
    side = side;
    text = join_text "^" fs;
  })

-- `parseTrade`; `none` is any of its errors.
unfoldable pub parse_trade : List String → Option TradeRecord
unfolding trade_fields valid_header
parse_trade fs =
    if ltb (length fs) trade_min_width || not (valid_header (field 0 fs) (field 1 fs))
    then none
    else elim (trade_fields fs) [ none ↦ none | some r ↦ if bad_trade r then none else some r ]

-- The records of equal width, each parsed: the loop of `ParseFrame`.
unfoldable pub parse_records {ℓ} :
    {A : Type ℓ} → (List String → Option A) → ℕ → ℕ → List String → Option (List A)
parse_records parse zero width fs = some []
parse_records parse (suc n) width fs = do
  r ← parse (take width fs)
  rest ← parse_records parse n width (drop width fs)
  some (r ∷ rest)

-- The records of a frame with as many of them as the number says, which is not 0.
unfoldable pub parse_payload : String → ℕ → List String → Parse
unfolding parse_records
parse_payload tr count fs =
    if not (length fs % count == 0)
    then (only_tr tr, some malformed)
    else if str_eq tr tr_book
    then elim (parse_records parse_book count (length fs / count) fs) [
      | none ↦ (only_tr tr, some malformed)
      | some rs ↦ (record { tr = tr; books = rs; trades = [] }, none)
    ]
    else elim (parse_records parse_trade count (length fs / count) fs) [
      | none ↦ (only_tr tr, some malformed)
      | some rs ↦ (record { tr = tr; books = []; trades = rs }, none)
    ]

-- `count <= 0` is refused.
unfoldable pub parse_count : String → Option ℤ → String → Parse
unfolding parse_payload
parse_count tr (some (pos (suc n))) payload = parse_payload tr (suc n) (split b'^' payload)
parse_count tr _ payload = (only_tr tr, some malformed)

abbrev pub is_recorded : String → Bool
is_recorded tr = str_eq tr tr_book || str_eq tr tr_trade

-- A header that is damaged, by its transaction if there is one.
abbrev pub damaged : List String → Parse
damaged (flag ∷ tr ∷ rest) =
    if is_recorded tr then (only_tr tr, some malformed) else (only_tr "", some not_realtime)
damaged _ = (only_tr "", some not_realtime)

unfoldable pub parse_header : List String → Parse
unfolding parse_count
parse_header (flag ∷ tr ∷ count ∷ payload ∷ rest) =
    if not (str_eq flag "0") && not (str_eq flag "1") || str_eq tr ""
    then damaged (flag ∷ tr ∷ [])
    else if not (is_recorded tr)
    then (only_tr tr, some unsupported_tr)
    else if str_eq flag "1"
    then (only_tr tr, some encrypted)
    else parse_count tr (parse_int count) payload
parse_header parts = damaged parts

abbrev pub is_newline : ℕ → Bool
is_newline c = c == 13 || c == 10

abbrev pub is_blank : ℕ → Bool
is_blank c = c == 32 || c == 9 || c == 13 || c == 10

abbrev pub starts_with : ℕ → String → Bool
starts_with k String.[] = false
starts_with k (String.◌∷◌ c s) = code c == k

-- `ParseFrame`.
unfoldable pub parse_frame : String → Parse
unfolding parse_header
parse_frame raw =
    let text = trim_right_text is_newline raw in
    if starts_with b'{' (trim_left_text is_blank text)
    then (only_tr "", some not_realtime)
    else parse_header (split_more 3 b'|' text)
