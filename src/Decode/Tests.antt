-- ===== src/Decode/Tests.antt =====
-- The theorems on internal/decode at concrete inputs.
use fillwire.Decode.Duplicate.Bounds.{Bounded, observe_all, observe_all-Bounded}
use fillwire.Prelude.{
  none, false, List, String, ◌*◌, some, refl, [], ◌∷◌, ℕ, arith, ◌≡◌, str_eq, codes,
}
use fillwire.Decode.Duplicate.{
  new_duplicate_tracker, observe, DuplicateKey, count_of, set_count, delete_count,
}
use fillwire.Prelude.Strings.{trim_text, parse_int}
use fillwire.Prelude.Int.{◌-ℤ◌, pos, ℤ, ◌+ℤ◌, ◌*ℤ◌, ◌<ℤ◌, ◌≤ℤ◌}
use fillwire.Decode.Record.Fills.{GoodRecord, Counted, decode-GoodRecord, decode-Counted}
use fillwire.Decode.Record.{
  decode, combine_kst_date, FillRecord, Event, Decoder, new_decoder, clock_seconds, hour_ns, day_ns,
  second_ns,
}
use fillwire.Decode.Notice.{Ws}
use fillwire.Decode.Counters.{new_counters}
use fillwire.Decode.Record.Time.{combine_kst_date-near}

abbrev key : ℕ → DuplicateKey
key n = record { order_no = "0000123"; fill_seq = pos n }

-- A tracker of two keys forgets the first when a third comes.
observed :
    (observe_all (key 1 ∷ key 1 ∷ key 2 ∷ key 3 ∷ key 1 ∷ []) (new_duplicate_tracker (pos 2))).0
    ≡ 1 ∷ 2 ∷ 1 ∷ 1 ∷ 1 ∷ []
unfolding observe_all observe count_of set_count delete_count
observed = refl

new-Bounded : Bounded (new_duplicate_tracker (pos 2))
new-Bounded = record { keys = refl; distinct = tt; at_most = omega arith; room = omega arith }

observe_all-Bounded_example :
    let t = (observe_all (key 1 ∷ key 2 ∷ []) (new_duplicate_tracker (pos 2))).1 in
    Bounded t
    × Bounded (observe (key 3) t).1
    × (count_of (key 3) (observe (key 3) t).1.counts ≡ some (observe (key 3) t).0)
observe_all-Bounded_example =
    observe_all-Bounded (key 1 ∷ key 2 ∷ []) (key 3) (new_duplicate_tracker (pos 2)) new-Bounded

-- A package `ws` with numbers in decimal.
abbrev pub ws_test : Ws
ws_test = record {
  is_execution = λ tr. str_eq tr "H0STCNI0";
  side_buy = "buy";
  side_sell = "sell";
  side_unknown = "";
  qty_int = λ x. parse_int x.qty;
  price_sign = λ x. parse_int x.price;
}

abbrev pub digest_test : String → ℕ
digest_test s = 7

abbrev pub upper_test : String → String
upper_test s = s

abbrev notice_fields : List String
notice_fields =
    "user" ∷ "account" ∷ "0000123" ∷ "" ∷ "02" ∷ "0" ∷ "" ∷ "" ∷ "005930" ∷ "10" ∷ "70000"
    ∷ "093000" ∷ "0" ∷ "2" ∷ "2" ∷ []

-- A fill at 09:30:00, received at 07:13:20 in Korea: it was made the day before.
abbrev pub fill_event : Event
fill_event = record {
  tr = "H0STCNI0";
  fields = notice_fields;
  execution = some (record {
    order_no = "0000123";
    symbol = "005930";
    qty = "10";
    price = "70000";
    filled_at = "093000";
    filled = "2";
    side = "buy";
  });
  received_at = pos 1700000000000000000;
}

abbrev pub test_decoder : Decoder
test_decoder = new_decoder "live" "KRX" (pos 100) (some new_counters)

abbrev pub fill_result : FillRecord
fill_result = record {
  broker = "kis";
  account_mode = "live";
  venue = "KRX";
  instrument_type = "equity_kr";
  symbol = "005930";
  raw_symbol = "005930";
  side = "buy";
  broker_order_id = "0000123";
  fill_seq = pos 7;
  filled_qty = "10";
  filled_price = "70000";
  filled_notional = none;
  fee_amount = none;
  fee_currency = "KRW";
  filled_at = pos 1699921800000000000;
  currency = "KRW";
  correlation_id = none;
  raw_payload_json = record {
    tr = "H0STCNI0";
    fields = notice_fields;
    received_at = pos 1700000000000000000;
    dup_suspect = false;
    dup_observation_count = 0;
  };
  dup_suspect = false;
  dup_observation_count = 1;
}

pub fill_event-decodes :
    (decode ws_test digest_test upper_test fill_event test_decoder).0 ≡ some fill_result
unfolding decode trim_text parse_int ◌+ℤ◌ ◌-ℤ◌ ◌*ℤ◌ count_of
fill_event-decodes = refl

decode-GoodRecord_example : GoodRecord ws_test fill_event fill_result
decode-GoodRecord_example =
    decode-GoodRecord ws_test digest_test upper_test fill_event test_decoder fill_result
      fill_event-decodes

decode-Counted_example :
    Counted test_decoder (decode ws_test digest_test upper_test fill_event test_decoder)
decode-Counted_example =
    decode-Counted ws_test digest_test upper_test fill_event test_decoder _ new_counters refl refl

fill-time : combine_kst_date (pos 1700000000000000000) "093000" ≡ some (pos 1699921800000000000)
unfolding combine_kst_date ◌+ℤ◌ ◌-ℤ◌ ◌*ℤ◌
fill-time = refl

combine_kst_date-near_example :
    (s : ℕ) × (days : ℤ) × (clock_seconds (codes "093000") ≡ some s)
    × (pos 1699921800000000000 +ℤ pos (9 * hour_ns) ≡ (days *ℤ pos day_ns) +ℤ pos (s * second_ns))
    × (pos 1700000000000000000 <ℤ pos 1699921800000000000 +ℤ pos day_ns)
    × (pos 1699921800000000000 ≤ℤ pos 1700000000000000000 +ℤ pos hour_ns)
combine_kst_date-near_example =
    combine_kst_date-near (pos 1700000000000000000) "093000" (pos 1699921800000000000) fill-time
