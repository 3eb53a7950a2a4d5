-- ===== src/Book/Replay/Agrees/Utf8.antt =====
-- Texts that the JSON of an evidence line keeps (internal/book/evidence.go, setRaw and raw).
use fillwire.Prelude.{
  [], ◌∷◌, List, Option, some, none, refl, Bool, ◌≡◌, String, All, true, arith, false, All-append,
  Bool-cases, inl, inr,
}
use fillwire.Book.Evidence.{Texts, TextLaws, read_verdicts, Line, line_raw, read_line, set_raw}
use fillwire.Book.Detect.{
  trade_verdict, trade_resync, trade_continues, trade, book, trade_all, frame, book_verdict,
  book_all, Verdict, TradeCursor, Tracker, turn_day, lookup,
}
use fillwire.Book.Frame.{Frame, TradeRecord, BookRecord}
use fillwire.Prelude.Int.{ℤ}

-- The verdict is on a symbol that is UTF-8.
abbrev pub OnUtf8 : Texts → Verdict → Type 0
OnUtf8 texts v = texts.is_utf8 v.symbol ≡ true

-- The symbols of the records of a frame are UTF-8.
abbrev pub SymbolsUtf8 : Texts → Frame → Type 0
SymbolsUtf8 texts f =
    All (λ (r : BookRecord). texts.is_utf8 r.symbol ≡ true) f.books
    × All (λ (r : TradeRecord). texts.is_utf8 r.symbol ≡ true) f.trades

book-symbol : (t : Tracker) (r : BookRecord) → (book t r).0.symbol ≡ r.symbol
unfolding book book_verdict
book-symbol t r = ground arith

trade_continues-symbol :
    (b : Bool) (c : TradeCursor) (r : TradeRecord) → (trade_continues b c r).0.symbol ≡ r.symbol
unfolding trade_continues
trade_continues-symbol b c r = ground arith

trade_resync-symbol : (c : TradeCursor) (r : TradeRecord) → (trade_resync c r).0.symbol ≡ r.symbol
unfolding trade_resync
trade_resync-symbol c r =
    ground (arith, trade_continues-symbol true (record c { resync = false }) r)

trade_verdict-symbol :
    (o : Option TradeCursor) (r : TradeRecord) → (trade_verdict o r).0.symbol ≡ r.symbol
unfolding trade_verdict
trade_verdict-symbol none r = refl
trade_verdict-symbol (some c) r =
    ground (arith, trade_continues-symbol false c r, trade_resync-symbol c r)

trade-symbol : (t : Tracker) (r : TradeRecord) → (trade t r).0.symbol ≡ r.symbol
unfolding trade
trade-symbol t r = trade_verdict-symbol (lookup r.symbol t.trades) r

module _ (texts : Texts) where
  OnUtf8-book_all :
      (t : Tracker) (rs : List BookRecord)
      → All (λ (r : BookRecord). texts.is_utf8 r.symbol ≡ true) rs
      → All (OnUtf8 texts) (book_all t rs).0
  unfolding book_all
  OnUtf8-book_all t [] h = tt
  OnUtf8-book_all t (r ∷ rs) (h, k) = (rw (book-symbol t r) h, OnUtf8-book_all (book t r).1 rs k)

  OnUtf8-trade_all :
      (t : Tracker) (rs : List TradeRecord)
      → All (λ (r : TradeRecord). texts.is_utf8 r.symbol ≡ true) rs
      → All (OnUtf8 texts) (trade_all t rs).0
  unfolding trade_all
  OnUtf8-trade_all t [] h = tt
  OnUtf8-trade_all t (r ∷ rs) (h, k) =
      (rw (trade-symbol t r) h, OnUtf8-trade_all (trade t r).1 rs k)

  pub OnUtf8-frame :
      (t : Tracker) (f : Frame) (at : ℤ) → SymbolsUtf8 texts f → All (OnUtf8 texts) (frame t f at).0
  unfolding frame
  OnUtf8-frame t f at (h, k) =
      let t1 = (turn_day t at).1 in
      let t2 = (book_all t1 f.books).1 in
      All-append (OnUtf8 texts) (book_all t1 f.books).0 (trade_all t2 f.trades).0
        (OnUtf8-book_all t1 f.books h) (OnUtf8-trade_all t2 f.trades k)

  -- Verdicts on such symbols are read back as they were.
  pub read_verdicts-same :
      TextLaws texts → (vs : List Verdict) → All (OnUtf8 texts) vs → read_verdicts texts vs ≡ vs
  read_verdicts-same laws [] h = refl
  read_verdicts-same laws (v ∷ vs) (h, k) =
      rw (laws.utf8_kept v.symbol h, read_verdicts-same laws vs k) refl

  -- And so is a raw frame, UTF-8 or not.
  pub line_raw-read_line :
      TextLaws texts
      → (raw : String) (l : Line) → l.raw_bytes ≡ none
      → line_raw (read_line texts (set_raw texts raw l)) ≡ raw
  line_raw-read_line laws raw l h = elim (Bool-cases (texts.is_utf8 raw)) [
    | inl good ↦ rw good (rw h (laws.utf8_kept raw good))
    | inr bad ↦ rw bad refl
  ]
