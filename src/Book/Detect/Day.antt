-- ===== src/Book/Detect/Day.antt =====
-- What a reconnect and a new day do to the next records (internal/book/detect.go).
use fillwire.Book.Frame.{BookRecord, TradeRecord}
use fillwire.Book.Detect.{
  lookup, frame, start_day, some, map_values, trade_all, str_eq, Tracker, Option, ℤ, ltb_ℤ, true,
  reconnect, eq_ℤ, pos, verdict, class_ok, BookCursor, unsync, fresh_cursor, Verdict,
}
use fillwire.Prelude.{
  true, Option, none, some, List, [], ◌∷◌, refl, String, ◌≡◌, Bool-cases, str_eq, inl, ap, inr,
  ◌++◌, length, ◌+◌,
}
use fillwire.Prelude.Int.{ℤ, ltb_ℤ, eq_ℤ, pos}
use fillwire.Book.Detect.Runs.{BookResyncs, NoBooksOf, book_all-resyncs}

lookup-map_values {ℓ} :
    {A : Type ℓ} (f : A → A) (k : String) (a : A) (es : List (String × A))
    → lookup k es ≡ some a
    → lookup k (map_values f es) ≡ some (f a)
unfolding lookup
lookup-map_values f k a [] h = cc
lookup-map_values {A = A} f k a ((j, b) ∷ es) h = elim (Bool-cases (str_eq j k)) [
  | inl same ↦
      rw same (ap (λ (o : Option A). elim o [ none ↦ none | some x ↦ some (f x) ]) (rw same at h))
  | inr other ↦ rw other (lookup-map_values f k a es (rw other at h))
]

-- A symbol whose book was seen: after a reconnect, and after the start of a day, its first record among
-- the book records that follow, whatever its text and hour and whatever records of other symbols come
-- before it, is applied as a resync; and its cursor is then the record's.
pub book-unsynced :
    (t : Tracker) (before : List BookRecord) (r : BookRecord) (behind : List BookRecord)
    (c : BookCursor)
    → NoBooksOf r.symbol before
    → lookup r.symbol t.books ≡ some c
    → BookResyncs (reconnect t) before r behind × BookResyncs (start_day t) before r behind
unfolding reconnect start_day
book-unsynced t before r behind c none_of h =
    let met = lookup-map_values unsync r.symbol c t.books h in
    (
      book_all-resyncs before (reconnect t) r behind (unsync c) none_of met refl,
      book_all-resyncs before (start_day t) r behind (unsync c) none_of met refl,
    )

-- The verdicts of a frame of a new day, of which one is on the trade behind the first ones: that trade
-- is applied as a resync, its cursor is the record's without a mark, and the trades behind it are met
-- with that cursor.
abbrev pub Restarts :
    Tracker
    → ℤ
    → String
    → List BookRecord
    → List TradeRecord
    → TradeRecord
    → List TradeRecord
    → Type 0
Restarts t at_ns tr books before r behind =
    let (vs, new_day, t') =
      frame t (record { tr = tr; books = books; trades = before ++ r ∷ behind }) at_ns in
    (new_day ≡ true)
    × (us : List Verdict) × (ws : List Verdict) × (u : Tracker) × (vs
        ≡ us ++ verdict r.symbol class_ok true (pos 0) ∷ ws)
    × (length us ≡ length books + length before)
    × (lookup r.symbol u.trades ≡ some (fresh_cursor r))
    × (trade_all u behind ≡ (ws, t'))
