-- ===== src/Book/Tests.antt =====
-- The theorems on internal/book at concrete inputs.
use fillwire.Book.Frame.{
  BookRecord, TradeRecord, parse_frame, Frame, parse_header, parse_count, parse_payload,
  parse_records, parse_trade, trade_fields, valid_header,
}
use fillwire.Book.Detect.{
  trade_all, reconnect, lookup, TradeCursor, Tracker, BookCursor, trade, verdict, trade_verdict,
  trade_continues, class_ok, start_day, put, class_gap, class_regress,
}
use fillwire.Prelude.Int.{◌-ℤ◌, pos, ℤ, pos_part}
use fillwire.Prelude.Word.{wrap64, sub64}
use fillwire.Prelude.{
  refl, List, [], ◌∷◌, some, arith, ℕ, All, ◌≡◌, true, false, String, ◌≤◌, ◌+◌, Bool, ltb, none,
  codes, if◌then◌else◌, ◌&&◌,
}
use fillwire.Book.Detect.Tape.{IsTradeOf, counted_all, trade_all-accounts}
use fillwire.Book.Detect.Day.{book-unsynced}
use fillwire.Book.Replay.Agrees.Calls.{Call, record_calls, got_frame, reconnected, ticked}
use fillwire.Book.Replay.{replay}
use fillwire.Book.Recorder.{StreamKey, Recorder, new_recorder}
use fillwire.Book.Frame.Parsed.{GoodFrame, parse_frame-GoodFrame}
use fillwire.Book.Replay.Agrees.Chunks.{takes_all, file}
use fillwire.Book.Detect.Runs.{BookResyncs}
use fillwire.Book.Evidence.{Texts, TextLaws}
use fillwire.Book.Replay.Agrees.Utf8.{SymbolsUtf8}
use fillwire.Prelude.Strings.{
  trim_left_text, trim_right_text, split_more, parse_int, split, join_text,
}
use fillwire.Book.Replay.Agrees.{record_calls-replay}

abbrev cursor : TradeCursor
cursor = record { acml = pos 100; text = "a"; resync = false; restart = false }

abbrev seen_book : BookCursor
seen_book = record { text = "b"; hour = "090000"; synced = true }

abbrev seen : Tracker
seen = record {
  books = ("005930", seen_book) ∷ [];
  trades = ("005930", cursor) ∷ [];
  day = pos 20000;
}

abbrev trade_of : ℕ → ℕ → String → TradeRecord
trade_of acml qty text = record {
  symbol = "005930";
  hour = "090000";
  price = pos 70000;
  side = "buy";
  acml_vol = pos acml;
  qty = pos qty;
  text = text;
}

-- One trade that continues, one behind a gap of 20, and one that went back.
abbrev rows : List TradeRecord
rows = trade_of 110 10 "x" ∷ trade_of 135 5 "y" ∷ trade_of 120 5 "z" ∷ []

rows-verdicts :
    (trade_all seen rows).0
    ≡ verdict "005930" class_ok false (pos 0)
      ∷ verdict "005930" class_gap false (pos 20)
      ∷ verdict "005930" class_regress false (pos 0)
      ∷ []
unfolding trade_all trade trade_verdict trade_continues lookup put sub64 wrap64 ◌-ℤ◌
rows-verdicts = refl

seen-cursor : lookup "005930" seen.trades ≡ some cursor
unfolding lookup
seen-cursor = refl

seen-book : lookup "005930" seen.books ≡ some seen_book
unfolding lookup
seen-book = refl

rows-good : All (IsTradeOf "005930") rows
rows-good = ground arith

trade_all-accounts_example :
    (c' : TradeCursor) × (lookup "005930" (trade_all seen rows).1.trades ≡ some c')
    × (100 ≤ pos_part c'.acml)
    × (pos_part c'.acml ≤ 100 + counted_all (trade_all seen rows).0 rows)
trade_all-accounts_example =
    trade_all-accounts rows seen "005930" cursor seen-cursor refl refl (refl, omega arith) rows-good

abbrev resent : BookRecord
resent = record {
  symbol = "005930";
  hour = "085959";
  asks = [];
  bids = [];
  total_ask = pos 0;
  total_bid = pos 0;
  text = "b";
}

-- A record of another symbol, which comes before it.
abbrev other_book : BookRecord
other_book = record resent { symbol = "000660"; text = "o" }

book-unsynced_example :
    BookResyncs (reconnect seen) (other_book ∷ []) resent (resent ∷ [])
    × BookResyncs (start_day seen) (other_book ∷ []) resent (resent ∷ [])
book-unsynced_example =
    book-unsynced seen (other_book ∷ []) resent (resent ∷ []) seen_book (refl, tt) seen-book

abbrev next_day_ns : ℤ
next_day_ns = pos 1728054000000000000

abbrev other_trade : TradeRecord
other_trade = record (trade_of 9 9 "o") { symbol = "000660" }

abbrev raw_trade : String
raw_trade = "0|H0STCNT0|001|005930^093000^70000^2^0^0^0^0^0^0^0^0^10^110^0^0^0^0^0^0^0^1\n"

abbrev parsed_trade : Frame
parsed_trade = record {
  tr = "H0STCNT0";
  books = [];
  trades =
      record {
        symbol = "005930";
        hour = "093000";
        price = pos 70000;
        side = "buy";
        acml_vol = pos 110;
        qty = pos 10;
        text = "005930^093000^70000^2^0^0^0^0^0^0^0^0^10^110^0^0^0^0^0^0^0^1";
      }
      ∷ [];
}

raw_trade-parses : parse_frame raw_trade ≡ (parsed_trade, none)
unfolding parse_frame parse_header parse_count parse_payload parse_records parse_trade trade_fields
    valid_header trim_left_text trim_right_text split_more parse_int split join_text
raw_trade-parses = refl

parse_frame-GoodFrame_example : GoodFrame parsed_trade
parse_frame-GoodFrame_example = parse_frame-GoodFrame raw_trade parsed_trade raw_trade-parses

-- A writer that loses the sixth line, and everything behind it.
abbrev five_lines : ℕ → Bool
five_lines n = ltb n 6

abbrev keep_order : List StreamKey → List StreamKey
keep_order ks = ks

-- The texts whose characters are ASCII stand for those that are UTF-8.
abbrev all_ascii : List ℕ → Bool
all_ascii [] = true
all_ascii (c ∷ cs) = ltb c 128 && all_ascii cs

abbrev ascii : Texts
ascii = record {
  is_utf8 = λ s. all_ascii (codes s);
  read_back = λ s. if all_ascii (codes s) then s else "?";
}

ascii-laws : TextLaws ascii
ascii-laws = record { utf8_kept = λ s h. rw h refl }

-- A trade with a field that is not ASCII, and one that does not parse.
abbrev raw_other : String
raw_other = "0|H0STCNT0|001|005930^093001^70000^2^0^0^0^é^0^0^0^0^5^115^0^0^0^0^0^0^0^1"

abbrev raw_short : String
raw_short = "0|H0STCNT0|001|005930"

raw_trade-utf8 : SymbolsUtf8 ascii (parse_frame raw_trade).0
raw_trade-utf8 = rw raw_trade-parses (tt, (refl, tt))

raw_other-utf8 : SymbolsUtf8 ascii (parse_frame raw_other).0
unfolding parse_frame parse_header parse_count parse_payload parse_records parse_trade trade_fields
    valid_header trim_left_text trim_right_text split_more parse_int split join_text
raw_other-utf8 = (tt, (refl, tt))

raw_short-utf8 : SymbolsUtf8 ascii (parse_frame raw_short).0
unfolding parse_frame parse_header parse_count parse_payload parse_records parse_trade trade_fields
    valid_header trim_left_text trim_right_text split_more parse_int split join_text
raw_short-utf8 = (tt, tt)

abbrev calls : List Call
calls =
    got_frame raw_trade (pos 1000)
    ∷ got_frame raw_short (pos 2000)
    ∷ reconnected (pos 3000) (pos 1)
    ∷ ticked (pos 9000000000)
    ∷ got_frame raw_other (pos 9100000000)
    ∷ got_frame raw_trade (pos 9200000000)
    ∷ []

abbrev recorded : Recorder
recorded =
    record_calls ascii five_lines keep_order calls
      (new_recorder ascii five_lines keep_order (pos 0) (pos 1))

record_calls-replay_example :
    let (rp, x) = replay takes_all (file ascii true recorded.written) in
    (x ≡ none) × (rp.summary.verdict_mismatches ≡ 0)
record_calls-replay_example =
    record_calls-replay ascii ascii-laws five_lines keep_order (pos 0) (pos 1) calls true
      (raw_trade-utf8, (raw_short-utf8, (tt, (tt, (raw_other-utf8, (raw_trade-utf8, tt))))))
