-- ===== src/Book/Frame/Parsed.antt =====
-- What a frame that parses holds (internal/book/frame.go).
use fillwire.Prelude.{
  ℕ, zero, suc, String, List, [], ◌∷◌, true, false, some, none, bind-some, inl, inr, refl, Bool,
  ◌≡◌, length, Option, some-eq, if◌then◌else◌, ◌≤◌, ◌||◌, ◌+◌, arith, Bool-cases, str_eq, not, ap,
  All, ◌⊎◌, ◌==◌, take, ltb, drop, ◌&&◌, ◌%◌, ◌/◌, Option-cases, subst, str_eq→eq,
}
use fillwire.Prelude.Strings.{
  parse_int, in_int64, unsigned_value, trim_left_text, split, trim_right_text, split_more,
}
use fillwire.Book.Frame.{
  valid_header, levels, int_field, TradeRecord, Frame, BookRecord, ℤ, pos, length, Option, Level,
  tr_book, depth, str_eq, not, code, field, tr_trade, trade_fields, parse_trade, parse_records,
  parse_book, bad_trade, trade_price, take, ltb, trade_qty, trade_min_width, drop, book_min_width,
  trade_acml_vol, book_ask1, side_of, book_ask_qty1, trade_side_code, book_bid1, book_bid_qty1,
  book_total_ask, book_total_bid, parse_payload, parse_header, parse_frame, parse_count, damaged,
  FrameError, starts_with, is_recorded, Parse, trim_left_text, split, is_blank, trim_right_text,
  is_newline, split_more,
}
use fillwire.Prelude.Int.{ℤ, pos, ◌≤ℤ◌, negsuc}
use fillwire.Prelude.Word.{IsInt64}

-- A symbol, and an hour of a clock.
abbrev pub GoodHeader : String → String → Type 0
GoodHeader symbol hour = valid_header symbol hour ≡ true

abbrev pub GoodTrade : TradeRecord → Type 0
GoodTrade r =
    GoodHeader r.symbol r.hour
    × (pos 1 ≤ℤ r.price)
    × (pos 1 ≤ℤ r.qty)
    × (r.qty ≤ℤ r.acml_vol)
    × IsInt64 r.qty
    × IsInt64 r.acml_vol

abbrev pub GoodBook : BookRecord → Type 0
GoodBook r = GoodHeader r.symbol r.hour × (length r.asks ≡ depth) × (length r.bids ≡ depth)

-- Exactly one of the books and the trades, by the transaction; one record at least; all good.
abbrev pub GoodFrame : Frame → Type 0
GoodFrame f =
    ((f.tr ≡ tr_book) × (1 ≤ length f.books) × All GoodBook f.books × (f.trades ≡ []))
    ⊎ ((f.tr ≡ tr_trade) × (1 ≤ length f.trades) × All GoodTrade f.trades × (f.books ≡ []))

in_int64-IsInt64 : (b : Bool) (o : Option ℕ) (v : ℤ) → in_int64 b o ≡ some v → IsInt64 v
in_int64-IsInt64 true none v h = cc
in_int64-IsInt64 false none v h = cc
in_int64-IsInt64 true (some zero) v h = rw (← some-eq h) (omega arith, omega arith)
in_int64-IsInt64 true (some (suc n)) v h = ground arith
in_int64-IsInt64 false (some n) v h = ground arith

parse_int-IsInt64 : (s : String) (v : ℤ) → parse_int s ≡ some v → IsInt64 v
unfolding parse_int
parse_int-IsInt64 String.[] v h = cc
parse_int-IsInt64 (String.◌∷◌ c s) v h = elim (Bool-cases (code c == b'-')) [
  | inl minus ↦ in_int64-IsInt64 true (unsigned_value s) v (rw minus at h)
  | inr other ↦ elim (Bool-cases (code c == b'+')) [
    | inl plus ↦ in_int64-IsInt64 false (unsigned_value s) v (rw (other, plus) at h)
    | inr digit ↦
        in_int64-IsInt64 false (unsigned_value (String.◌∷◌ c s)) v (rw (other, digit) at h)
  ]
]

int_field-IsInt64 : (fs : List String) (i : ℕ) (v : ℤ) → int_field fs i ≡ some v → IsInt64 v
unfolding int_field
int_field-IsInt64 fs i v h = elim (Bool-cases (str_eq (field i fs) "")) [
  | inl empty ↦ rw (← some-eq (rw empty at h)) (omega arith, omega arith)
  | inr full ↦ parse_int-IsInt64 (field i fs) v (rw full at h)
]

length-levels :
    (n p q : ℕ) (fs : List String) (ls : List Level) → levels n p q fs ≡ some ls → length ls ≡ n
unfolding levels
length-levels zero p q fs ls h = rw (← some-eq h) refl
length-levels (suc n) p q fs ls h =
    let (a, _, h1) = bind-some (int_field fs p) _ ls h in
    let (b, _, h2) = bind-some (int_field fs q) _ ls h1 in
    let (rest, eq, h3) = bind-some (levels n (p + 1) (q + 1) fs) _ ls h2 in
    rw (← some-eq h3) (ap suc (length-levels n (p + 1) (q + 1) fs rest eq))

-- The tests in front of both parsers.
guarded :
    {A : Type 0} (a b : Bool) (o : Option A) (r : A)
    → (if a || not b then none else o) ≡ some r
    → (b ≡ true) × (o ≡ some r)
guarded a b o r h = ground arith

pub parse_book-Good : (fs : List String) (r : BookRecord) → parse_book fs ≡ some r → GoodBook r
unfolding parse_book
parse_book-Good fs r h =
    let (header, h0) =
      guarded (ltb (length fs) book_min_width) (valid_header (field 0 fs) (field 1 fs)) _ r h in
    let (asks, a, h1) = bind-some (levels depth book_ask1 book_ask_qty1 fs) _ r h0 in
    let (bids, b, h2) = bind-some (levels depth book_bid1 book_bid_qty1 fs) _ r h1 in
    let (ta, _, h3) = bind-some (int_field fs book_total_ask) _ r h2 in
    let (tb, _, h4) = bind-some (int_field fs book_total_bid) _ r h3 in
    rw (← some-eq h4) (
      header,
      length-levels depth book_ask1 book_ask_qty1 fs asks a,
      length-levels depth book_bid1 book_bid_qty1 fs bids b,
    )

-- What the fields of a trade give before its tests.
trade_fields-Read :
    (fs : List String) (r : TradeRecord)
    → trade_fields fs ≡ some r
    → (r.symbol ≡ field 0 fs) × (r.hour ≡ field 1 fs) × IsInt64 r.qty × IsInt64 r.acml_vol
unfolding trade_fields
trade_fields-Read fs r h =
    let (price, _, h1) = bind-some (int_field fs trade_price) _ r h in
    let (qty, q, h2) = bind-some (int_field fs trade_qty) _ r h1 in
    let (acml, a, h3) = bind-some (int_field fs trade_acml_vol) _ r h2 in
    let (side, _, h4) = bind-some (side_of (field trade_side_code fs)) _ r h3 in
    rw (← some-eq h4)
      (refl, refl, int_field-IsInt64 fs trade_qty qty q, int_field-IsInt64 fs trade_acml_vol acml a)

tested :
    (o : Option TradeRecord) (r : TradeRecord)
    → ◌≡◌ {A = Option TradeRecord}
        (elim o [ none ↦ none | some x ↦ if bad_trade x then none else some x ])
        (some r)
    → (o ≡ some r) × (bad_trade r ≡ false)
tested none r h = cc
tested (some x) r h = elim (Bool-cases (bad_trade x)) [
  | inl bad ↦ absurd (none-some (rw bad at h))
  | inr good ↦ let eq : x ≡ r = some-eq (rw good at h) in (ap some eq, rw (← eq) good)
]
  where
    none-some : ◌≡◌ {A = Option TradeRecord} none (some r) → ⊥
    none-some k = cc

pub parse_trade-Good : (fs : List String) (r : TradeRecord) → parse_trade fs ≡ some r → GoodTrade r
unfolding parse_trade
parse_trade-Good fs r h =
    let (header, h0) =
      guarded (ltb (length fs) trade_min_width) (valid_header (field 0 fs) (field 1 fs)) _ r h in
    let (read, good) = tested (trade_fields fs) r h0 in
    let (s, t, q, a) = trade_fields-Read fs r read in
    (rw (s, t) header, ground arith, ground arith, ground arith, q, a)

parse_records-All :
    {A : Type 0} (P : A → Type 0) (parse : List String → Option A)
    → ((fs : List String) (r : A) → parse fs ≡ some r → P r)
    → (n width : ℕ) (fs : List String) (rs : List A) → parse_records parse n width fs ≡ some rs
    → (length rs ≡ n) × All P rs
unfolding parse_records
parse_records-All P parse good zero width fs rs h = rw (← some-eq h) (refl, tt)
parse_records-All P parse good (suc n) width fs rs h =
    let (r, one, h1) = bind-some (parse (take width fs)) _ rs h in
    let (rest, more, h2) = bind-some (parse_records parse n width (drop width fs)) _ rs h1 in
    let (k, all) = parse_records-All P parse good n width (drop width fs) rest more in
    rw (← some-eq h2) (ap suc k, (good (take width fs) r one, all))

refused : {f g : Frame} {e : FrameError} {A : Type 0} → ◌≡◌ {A = Parse} (g, some e) (f, none) → A
refused h = absurd (none-some (ap (λ (p : Parse). p.1) h))
  where
    none-some : {e : FrameError} → ◌≡◌ {A = Option FrameError} (some e) none → ⊥
    none-some k = cc

parse_payload-Good :
    (tr : String) (count : ℕ) (fs : List String) (f : Frame)
    → is_recorded tr ≡ true
    → parse_payload tr (suc count) fs ≡ (f, none)
    → GoodFrame f
unfolding parse_payload
parse_payload-Good tr count fs f rec h = elim (Bool-cases (not (length fs % suc count == 0))) [
  | inl uneven ↦ refused (rw uneven at h)
  | inr even ↦
      let w = length fs / suc count in
      elim (Bool-cases (str_eq tr tr_book)) [
        | inl book ↦ elim (Option-cases (parse_records parse_book (suc count) w fs)) [
          | inl bad ↦ refused (rw (even, book, bad) at h)
          | inr (rs, good) ↦
              let (k, all) =
                parse_records-All GoodBook parse_book parse_book-Good (suc count) w fs rs good in
              subst GoodFrame (ap (λ (p : Parse). p.0) (rw (even, book, good) at h))
                (inl (str_eq→eq tr tr_book book, omega (arith, k), all, refl))
        ]
        | inr other ↦ elim (Option-cases (parse_records parse_trade (suc count) w fs)) [
          | inl bad ↦ refused (rw (even, other, bad) at h)
          | inr (rs, good) ↦
              let (k, all) =
                parse_records-All GoodTrade parse_trade parse_trade-Good (suc count) w fs rs good in
              subst GoodFrame (ap (λ (p : Parse). p.0) (rw (even, other, good) at h))
                (inr (str_eq→eq tr tr_trade (rw other at rec), omega (arith, k), all, refl))
        ]
      ]
]

parse_count-Good :
    (tr : String) (n : Option ℤ) (payload : String) (f : Frame)
    → is_recorded tr ≡ true
    → parse_count tr n payload ≡ (f, none)
    → GoodFrame f
unfolding parse_count
parse_count-Good tr none payload f rec h = refused h
parse_count-Good tr (some (pos zero)) payload f rec h = refused h
parse_count-Good tr (some (pos (suc n))) payload f rec h =
    parse_payload-Good tr n (split b'^' payload) f rec h
parse_count-Good tr (some (negsuc n)) payload f rec h = refused h

damaged-refused : (parts : List String) (f : Frame) → damaged parts ≡ (f, none) → GoodFrame f
damaged-refused [] f h = refused h
damaged-refused (a ∷ []) f h = refused h
damaged-refused (a ∷ tr ∷ rest) f h = elim (Bool-cases (is_recorded tr)) [
  | inl rec ↦ refused (rw rec at h)
  | inr other ↦ refused (rw other at h)
]

parse_header-Good : (parts : List String) (f : Frame) → parse_header parts ≡ (f, none) → GoodFrame f
unfolding parse_header
parse_header-Good [] f h = refused h
parse_header-Good (a ∷ []) f h = refused h
parse_header-Good (a ∷ b ∷ []) f h = damaged-refused (a ∷ b ∷ []) f h
parse_header-Good (a ∷ b ∷ c ∷ []) f h = damaged-refused (a ∷ b ∷ c ∷ []) f h
parse_header-Good (flag ∷ tr ∷ count ∷ payload ∷ rest) f h =
    elim (Bool-cases (not (str_eq flag "0") && not (str_eq flag "1") || str_eq tr "")) [
      | inl bad ↦ damaged-refused (flag ∷ tr ∷ []) f (rw bad at h)
      | inr good ↦ elim (Bool-cases (is_recorded tr)) [
        | inr other ↦ refused (rw (good, other) at h)
        | inl rec ↦ elim (Bool-cases (str_eq flag "1")) [
          | inl secret ↦ refused (rw (good, rec, secret) at h)
          | inr plain ↦
              parse_count-Good tr (parse_int count) payload f rec (rw (good, rec, plain) at h)
        ]
      ]
    ]

-- A frame that parses holds book records or trades, as its transaction says, and one at least. Each
-- has a symbol and an hour of a clock; a book has ten levels on each side; a trade has a positive
-- price, and a positive quantity that is at most its cumulative volume, both int64.
pub parse_frame-GoodFrame : (raw : String) (f : Frame) → parse_frame raw ≡ (f, none) → GoodFrame f
unfolding parse_frame
parse_frame-GoodFrame raw f h =
    elim (Bool-cases
      (starts_with b'{' (trim_left_text is_blank (trim_right_text is_newline raw)))) [
        | inl json ↦ refused (rw json at h)
        | inr frame ↦
            parse_header-Good (split_more 3 b'|' (trim_right_text is_newline raw)) f (rw frame at h)
      ]
