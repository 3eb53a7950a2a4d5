-- ===== src/Decode/Record.antt =====
-- internal/decode/decode.go: the records of execution notices. A time is in nanoseconds of Unix time,
-- without the range of an int64. SHA-256 is the parameter `digest`, the first four bytes of the
-- sum; `strings.ToUpper` is the parameter `to_upper`. Logging is left out.
pub mod Time
pub mod Fills
use fillwire.Decode.Notice.{
  Execution, Ws, NoticeKind, notice_fill, notice_order, notice_rejected, notice_canceled,
  notice_unknown, classify_notice, check_execution_matches_frame,
}
use fillwire.Decode.Counters.{Counters, inc_dropped, inc_non_fill, inc_dup_suspect, snapshot}
use fillwire.Decode.Duplicate.{DuplicateTracker, observe, new_duplicate_tracker, size}
use fillwire.Prelude.{
  ℕ, String, List, [], ◌∷◌, Bool, true, false, Option, some, none, ◌==◌, ◌/◌, ◌-◌, ◌+◌, ◌*◌, ◌&&◌,
  ◌%◌, leb, if◌then◌else◌, codes, ◌||◌, ◌^◌, not, ltb, str_eq, is_none, first_error,
}
use fillwire.Prelude.Int.{ℤ, pos, negsuc, ◌+ℤ◌, ◌-ℤ◌, ◌*ℤ◌, ltb_ℤ}
use fillwire.Prelude.Strings.{is_space, is_digit, trim_text, join_text}

-- `ws.Event`, with the fields that are read.
pub record Event : Type 0 where
  pub tr : String
  pub fields : List String
  pub execution : Option Execution
  pub received_at : ℤ

-- `RawPayload`.
pub record RawPayload : Type 0 where
  pub tr : String
  pub fields : List String
  pub received_at : ℤ
  pub dup_suspect : Bool
  pub dup_observation_count : ℕ

-- `Record`.
pub record FillRecord : Type 0 where
  pub broker : String
  pub account_mode : String
  pub venue : String
  pub instrument_type : String
  pub symbol : String
  pub raw_symbol : String
  pub side : String
  pub broker_order_id : String
  pub fill_seq : ℤ
  pub filled_qty : String
  pub filled_price : String
  pub filled_notional : Option String
  pub fee_amount : Option String
  pub fee_currency : String
  pub filled_at : ℤ
  pub currency : String
  pub correlation_id : Option String
  pub raw_payload_json : RawPayload
  pub dup_suspect : Bool
  pub dup_observation_count : ℕ

-- `Decoder`.
pub record Decoder : Type 0 where
  pub account_mode : String
  pub venue : String
  pub counters : Option Counters
  pub duplicates : DuplicateTracker

-- `New`.
abbrev pub new_decoder : String → String → ℤ → Option Counters → Decoder
new_decoder account_mode venue dup_track_max counters = record {
  account_mode = account_mode;
  venue = venue;
  counters = counters;
  duplicates = new_duplicate_tracker dup_track_max;
}

-- `Dropped`.
abbrev pub dropped_count : Decoder → ℕ
dropped_count d = (snapshot d.counters).dropped

-- `NonFill`.
abbrev pub non_fill_count : Decoder → ℕ
non_fill_count d =
    let s = snapshot d.counters in
    (s.non_fill_order + s.non_fill_reject + s.non_fill_cancel + s.non_fill_unknown) % 2 ^ 64

-- Nanoseconds.
abbrev pub second_ns : ℕ
second_ns = 1000000000

abbrev pub hour_ns : ℕ
hour_ns = 3600 * second_ns

abbrev pub day_ns : ℕ
day_ns = 24 * hour_ns

-- The whole days before a time.
abbrev pub floor_days : ℤ → ℤ
floor_days (pos t) = pos (t / day_ns)
floor_days (negsuc t) = negsuc (t / day_ns)

abbrev pub all_digits : List ℕ → Bool
all_digits [] = true
all_digits (c ∷ cs) = is_digit c && all_digits cs

-- What `time.Parse` takes behind the seconds: nothing, or a fraction.
abbrev pub is_fraction : List ℕ → Bool
is_fraction [] = true
is_fraction (c ∷ []) = false
is_fraction (c ∷ d ∷ ds) = (c == 46 || c == 44) && all_digits (d ∷ ds)

abbrev pub two_digits : ℕ → ℕ → ℕ
two_digits c d = (c - 48) * 10 + (d - 48)

-- `time.Parse` with the layout 150405, in seconds of the day.
unfoldable pub clock_seconds : List ℕ → Option ℕ
clock_seconds (a ∷ b ∷ c ∷ d ∷ e ∷ f ∷ rest) =
    let h = two_digits a b in
    let m = two_digits c d in
    let s = two_digits e f in
    if all_digits (a ∷ b ∷ c ∷ d ∷ e ∷ f ∷ [])
      && ltb h 24
      && ltb m 60
      && ltb s 60
      && is_fraction rest
    then some (h * 3600 + m * 60 + s)
    else none
clock_seconds _ = none

-- The time of a clock on the day of a time, both in KST.
unfoldable pub on_day_of : ℤ → ℕ → ℤ
on_day_of t seconds =
    (floor_days (t +ℤ pos (9 * hour_ns)) *ℤ pos day_ns)
    +ℤ pos (seconds * second_ns)
    -ℤ pos (9 * hour_ns)

-- `combineKSTDate`.
unfoldable pub combine_kst_date : ℤ → String → Option ℤ
unfolding on_day_of clock_seconds
combine_kst_date received_at filled_at = elim (clock_seconds (codes filled_at)) [
  | none ↦ none
  | some s ↦
      let candidate = on_day_of received_at s in
      if ltb_ℤ (received_at +ℤ pos hour_ns) candidate
      then some (candidate -ℤ pos day_ns)
      else some candidate
]

-- Why `Decode` drops an execution with a time.
pub data DropReason : Type 0 where
  disagrees empty_order empty_symbol bad_quantity bad_price unknown_side : DropReason

abbrev pub is_positive : Option ℤ → Bool
is_positive none = false
is_positive (some n) = ltb_ℤ (pos 0) n

abbrev pub is_fill : NoticeKind → Bool
is_fill notice_fill = true
is_fill notice_order = false
is_fill notice_rejected = false
is_fill notice_canceled = false
is_fill notice_unknown = false

-- `DeriveFillSeq`, from the digest.
abbrev pub fill_seq_of : ℕ → ℤ
fill_seq_of n = pos (n % 2 ^ 31)

module _ (ws : Ws) (digest : String → ℕ) (to_upper : String → String) where
  -- `DeriveFillSeq`.
  abbrev pub derive_fill_seq : List String → ℤ
  derive_fill_seq fields = fill_seq_of (digest (join_text "^" fields))

  abbrev pub order_no_of : Execution → String
  order_no_of x = trim_text is_space x.order_no

  abbrev pub symbol_of : Execution → String
  symbol_of x = to_upper (trim_text is_space x.symbol)

  -- The checks of `Decode` in front of the one of the time, in their order.
  abbrev pub drop_checks : Execution → Event → List (Bool × DropReason)
  drop_checks x e =
      (not (check_execution_matches_frame ws x e.fields), disagrees)
      ∷ (str_eq (order_no_of x) "", empty_order)
      ∷ (str_eq (symbol_of x) "", empty_symbol)
      ∷ (not (is_positive (ws.qty_int x)), bad_quantity)
      ∷ (not (is_positive (ws.price_sign x)), bad_price)
      ∷ (not (str_eq x.side ws.side_buy) && not (str_eq x.side ws.side_sell), unknown_side)
      ∷ []

  abbrev pub raw_payload : Event → Bool → ℕ → RawPayload
  raw_payload e suspect count = record {
    tr = e.tr;
    fields = e.fields;
    received_at = e.received_at;
    dup_suspect = suspect;
    dup_observation_count = if suspect then count else 0;
  }

  abbrev pub fill_record : Decoder → Execution → Event → ℤ → ℕ → FillRecord
  fill_record d x e filled_at count = record {
    broker = "kis";
    account_mode = d.account_mode;
    venue = d.venue;
    instrument_type = "equity_kr";
    symbol = symbol_of x;
    raw_symbol = x.symbol;
    side = x.side;
    broker_order_id = order_no_of x;
    fill_seq = derive_fill_seq e.fields;
    filled_qty = x.qty;
    filled_price = x.price;
    filled_notional = none;
    fee_amount = none;
    fee_currency = "KRW";
    filled_at = filled_at;
    currency = "KRW";
    correlation_id = none;
    raw_payload_json = raw_payload e (leb 2 count) count;
    dup_suspect = leb 2 count;
    dup_observation_count = count;
  }

  -- An execution that passes the checks, with its time.
  unfoldable pub observe_fill : Execution → Event → ℤ → Decoder → Option FillRecord × Decoder
  unfolding observe
  observe_fill x e filled_at d =
      let (count, t) =
        observe (record { order_no = order_no_of x; fill_seq = derive_fill_seq e.fields })
          d.duplicates in
      let seen : Decoder = record d { duplicates = t } in
      (
        some (fill_record d x e filled_at count),
        if leb 2 count then record seen { counters = inc_dup_suspect d.counters } else seen,
      )

  -- `Decode` of an execution.
  unfoldable pub decode_execution : Execution → Event → Decoder → Option FillRecord × Decoder
  unfolding observe_fill check_execution_matches_frame classify_notice combine_kst_date
  decode_execution x e d =
      let kind = classify_notice ws e.tr e.fields in
      if not (is_fill kind)
      then (none, record d { counters = inc_non_fill kind d.counters })
      else elim (first_error (drop_checks x e)) [
        | some why ↦ (none, record d { counters = inc_dropped d.counters })
        | none ↦ elim (combine_kst_date e.received_at x.filled_at) [
          | none ↦ (none, record d { counters = inc_dropped d.counters })
          | some filled_at ↦ observe_fill x e filled_at d
        ]
      ]

  -- `Decode`.
  unfoldable pub decode : Event → Decoder → Option FillRecord × Decoder
  unfolding decode_execution
  decode e d = elim e.execution [ none ↦ (none, d) | some x ↦ decode_execution x e d ]
