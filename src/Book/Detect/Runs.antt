-- ===== src/Book/Detect/Runs.antt =====
-- Runs of book and trade records (internal/book/detect.go, the loops of `frame`).
use fillwire.Prelude.{
  suc, String, List, [], ◌∷◌, ◌++◌, some, true, false, refl, ◌≡◌, ◌∙◌, sym, ap, subst, inl, inr,
  Bool-cases, str_eq, str_eq→eq, length, All,
}
use fillwire.Prelude.Int.{pos}
use fillwire.Book.Frame.{BookRecord, TradeRecord}
use fillwire.Book.Detect.{
  Tracker, BookCursor, TradeCursor, Verdict, verdict, class_ok, lookup, put, book, book_verdict,
  book_all, trade, trade_verdict, trade_all, fresh_cursor,
}
use fillwire.Book.Detect.Tape.{lookup-put}

pub length-book_all : (t : Tracker) (rs : List BookRecord) → length (book_all t rs).0 ≡ length rs
unfolding book_all
length-book_all t [] = refl
length-book_all t (r ∷ rs) = ap suc (length-book_all (book t r).1 rs)

pub length-trade_all : (t : Tracker) (rs : List TradeRecord) → length (trade_all t rs).0 ≡ length rs
unfolding trade_all
length-trade_all t [] = refl
length-trade_all t (r ∷ rs) = ap suc (length-trade_all (trade t r).1 rs)

lookup-put_other {ℓ} :
    {A : Type ℓ} (j k : String) (a : A) (es : List (String × A))
    → str_eq j k ≡ false
    → lookup k (put j a es) ≡ lookup k es
unfolding lookup put
lookup-put_other j k a [] h = rw h refl
lookup-put_other j k a ((i, b) ∷ es) h = elim (Bool-cases (str_eq i j)) [
  | inl same ↦
      let differs : str_eq i k ≡ false =
        subst (λ (x : String). str_eq x k ≡ false) (sym (str_eq→eq i j same)) h in
      rw same (rw differs refl)
  | inr other ↦ elim (Bool-cases (str_eq i k)) [
    | inl found ↦ rw other (rw found refl)
    | inr missed ↦ rw other (rw missed (lookup-put_other j k a es h))
  ]
]

pub book_all-trades : (t : Tracker) (rs : List BookRecord) → (book_all t rs).1.trades ≡ t.trades
unfolding book_all book
book_all-trades t [] = refl
book_all-trades t (r ∷ rs) = book_all-trades (book t r).1 rs

abbrev pub book_cursor : BookRecord → BookCursor
book_cursor r = record { text = r.text; hour = r.hour; synced = true }

-- No record in front is of the symbol.
abbrev pub NoBooksOf : String → List BookRecord → Type 0
NoBooksOf s rs = All (λ (q : BookRecord). str_eq q.symbol s ≡ false) rs

abbrev pub NoTradesOf : String → List TradeRecord → Type 0
NoTradesOf s rs = All (λ (q : TradeRecord). str_eq q.symbol s ≡ false) rs

-- In the run, the record behind the first ones is applied as a resync, its cursor is the record's,
-- and the records behind it are met with that cursor.
abbrev pub BookResyncs : Tracker → List BookRecord → BookRecord → List BookRecord → Type 0
BookResyncs t before r behind =
    let (vs, t') = book_all t (before ++ r ∷ behind) in
    (us : List Verdict) × (ws : List Verdict) × (u : Tracker) × (vs
      ≡ us ++ verdict r.symbol class_ok true (pos 0) ∷ ws)
    × (length us ≡ length before)
    × (lookup r.symbol u.books ≡ some (book_cursor r))
    × (book_all u behind ≡ (ws, t'))

abbrev pub TradeResyncs : Tracker → List TradeRecord → TradeRecord → List TradeRecord → Type 0
TradeResyncs t before r behind =
    let (vs, t') = trade_all t (before ++ r ∷ behind) in
    (us : List Verdict) × (ws : List Verdict) × (u : Tracker) × (vs
      ≡ us ++ verdict r.symbol class_ok true (pos 0) ∷ ws)
    × (length us ≡ length before)
    × (lookup r.symbol u.trades ≡ some (fresh_cursor r))
    × (trade_all u behind ≡ (ws, t'))

pub book_all-resyncs :
    (before : List BookRecord) (t : Tracker) (r : BookRecord) (behind : List BookRecord)
    (c : BookCursor)
    → NoBooksOf r.symbol before
    → lookup r.symbol t.books ≡ some c
    → c.synced ≡ false
    → BookResyncs t before r behind
unfolding book_all book book_verdict
book_all-resyncs [] t r behind c none_of h loose = (
  [],
  (book_all (book t r).1 behind).0,
  (book t r).1,
  rw h (rw loose refl),
  refl,
  rw h (rw loose (lookup-put r.symbol (book_cursor r) t.books)),
  refl,
)
book_all-resyncs (q ∷ qs) t r behind c (other, none_of) h loose =
    let (v, t1) = book t q in
    let met =
      lookup-put_other q.symbol r.symbol (book_verdict (lookup q.symbol t.books) q).1 t.books other
      ∙ h in
    let (us, ws, u, vs-eq, long, cursor, rest) =
      book_all-resyncs qs t1 r behind c none_of met loose in
    (v ∷ us, ws, u, ap (λ (vs : List Verdict). v ∷ vs) vs-eq, ap suc long, cursor, rest)

pub trade_all-resyncs :
    (before : List TradeRecord) (t : Tracker) (r : TradeRecord) (behind : List TradeRecord)
    (c : TradeCursor)
    → NoTradesOf r.symbol before
    → lookup r.symbol t.trades ≡ some c
    → c.restart ≡ true
    → TradeResyncs t before r behind
unfolding trade_all trade trade_verdict
trade_all-resyncs [] t r behind c none_of h marked = (
  [],
  (trade_all (trade t r).1 behind).0,
  (trade t r).1,
  rw h (rw marked refl),
  refl,
  rw h (rw marked (lookup-put r.symbol (fresh_cursor r) t.trades)),
  refl,
)
trade_all-resyncs (q ∷ qs) t r behind c (other, none_of) h marked =
    let (v, t1) = trade t q in
    let met =
      lookup-put_other q.symbol r.symbol (trade_verdict (lookup q.symbol t.trades) q).1 t.trades
        other
      ∙ h in
    let (us, ws, u, vs-eq, long, cursor, rest) =
      trade_all-resyncs qs t1 r behind c none_of met marked in
    (v ∷ us, ws, u, ap (λ (vs : List Verdict). v ∷ vs) vs-eq, ap suc long, cursor, rest)
