-- ===== src/Exec/E1/Tests.antt =====
-- The theorems on internal/exec/e1 at concrete inputs.
use fillwire.Exec.Tests.{three_shares}
use fillwire.Exec.E1.{
  E1Env, E1Config, Options, Client, Request, Url, answer, mode_send, new_e1_client,
  send_child_request, check_url, mock_account, confirm_header, GatewayOutcome, child_request, ℕ,
  List, [],
}
use fillwire.Exec.E1.Sends.{new_e1_client-posted}
use fillwire.Exec.E1.Accepts.{Confirmed, send_child_request-accepted}
use fillwire.Exec.State.{Child, Outcome, accepted, submit}
use fillwire.Exec.Intent.{validate, field_checks, quantity_checks, cap, target_qty, inventory_room}
use fillwire.Exec.Intent.Pattern.{is_uuid, is_krx_symbol, is_reference}
use fillwire.Exec.Tick.{floor_tick, tick_at}
use fillwire.Sink.Client.{is_http_token_char}
use fillwire.Prelude.Strings.{trim_text, parse_int}
use fillwire.Prelude.Word.{sub64, wrap64, quot64, add64}
use fillwire.Prelude.{refl, String, some, none, ok, true, false, ◌≡◌, Any, ℕ, List, ◌∷◌, []}
use fillwire.Exec.Ledger.{normalize}
use fillwire.Prelude.Int.{◌+ℤ◌, pos, ◌-ℤ◌}
use fillwire.Exec.E1.Reads.{read_fills, Reader, FillsSnapshot, LedgerOrder, LedgerFill}
use fillwire.Exec.Side.{buy}
use fillwire.Exec.E1.Reads.Snapshot.{GoodOrders, read_fills-GoodOrders}

abbrev children_url : Url
children_url = record {
  scheme = "https";
  has_user = false;
  raw_query = "";
  force_query = false;
  fragment = "";
  raw_fragment = "";
  host = "e1.example";
  hostname = "e1.example";
  opaque_part = "";
  text = "https://e1.example/children";
}

abbrev taken_outcome : GatewayOutcome
taken_outcome = record { status = accepted; reason = none; broker_order_id = some " 123 " }

-- An order service that accepts.
abbrev env_test : E1Env
env_test = record {
  net = record { parse_request_uri = λ s. none; is_loopback_ip = λ s. false; to_lower = λ s. s };
  parse_url = λ s. some children_url;
  canonical_header_key = λ s. s;
  marshal_child = λ c. ok "{}";
  request_refused = λ r. none;
  http_do = λ r. answer 200 10 "{}";
  decode_outcome = λ s. some taken_outcome;
  encode_line = λ l. some "{}";
  log_writes = λ s. true;
  quoted = λ s. s;
}

abbrev config_test : E1Config
config_test = record {
  account = "kis_mock";
  send_enabled = true;
  dry_run = false;
  url = "https://e1.example/children";
  token_header = "";
  timeout = pos 0;
}

abbrev options_test : Options
options_test = record {
  token = some (some "secret");
  http_timeout = none;
  has_log = false;
  simulated = none;
}

abbrev client_test : Client
client_test = record {
  mode = mode_send;
  account = "kis_mock";
  intent = three_shares;
  url = "https://e1.example/children";
  header = "X-Execution-Intent-Gateway-Token";
  token = "secret";
  timeout = pos 10000000000;
  simulated = none;
}

abbrev child_test : Child
child_test = record {
  action = submit;
  intent_id = three_shares.intent_id;
  key = "key:1";
  target_key = "";
  qty = pos 1;
  price = pos 70000;
}

client_test-new : new_e1_client env_test config_test three_shares options_test ≡ ok client_test
unfolding new_e1_client field_checks is_uuid is_krx_symbol is_reference quantity_checks cap
    floor_tick sub64 wrap64 ◌-ℤ◌ tick_at target_qty quot64 inventory_room is_http_token_char
    trim_text
client_test-new = refl

abbrev request_test : Request
request_test = child_request env_test client_test child_test "{}"

child_test-posts : (send_child_request env_test client_test child_test).posted ≡ some request_test
unfolding send_child_request
child_test-posts = refl

new_e1_client-posted_example :
    (config_test.account ≡ mock_account)
    × (config_test.send_enabled ≡ true)
    × (config_test.dry_run ≡ false)
    × (three_shares.account ≡ mock_account)
    × (validate three_shares ≡ none)
    × (child_test.intent_id ≡ three_shares.intent_id)
    × (check_url env_test config_test.url ≡ ok request_test.url)
    × (env_test.marshal_child child_test ≡ ok request_test.body)
    × Any (λ (h : String × String). h ≡ (confirm_header, child_test.key)) request_test.headers
new_e1_client-posted_example =
    new_e1_client-posted env_test config_test three_shares options_test client_test child_test
      request_test client_test-new child_test-posts

abbrev outcome_test : Outcome
outcome_test = record { key = "key:1"; status = accepted; reason = ""; broker_order_id = "123" }

child_test-accepted : (send_child_request env_test client_test child_test).result ≡ ok outcome_test
unfolding send_child_request trim_text
child_test-accepted = refl

send_child_request-accepted_example :
    (r : Request) × ((send_child_request env_test client_test child_test).posted ≡ some r)
    × Confirmed env_test child_test outcome_test (env_test.http_do r)
send_child_request-accepted_example =
    send_child_request-accepted env_test client_test child_test outcome_test refl
      child_test-accepted refl

abbrev fill_of : String → ℕ → LedgerFill
fill_of id qty = record {
  fill_id = id;
  side = buy;
  qty = pos qty;
  price = "70000";
  has_times = true;
  filled_at_ns = pos 1;
}

abbrev orders_test : List LedgerOrder
orders_test =
    record {
      broker_order_id = "0000123";
      cumulative_qty = pos 3;
      fills = some (fill_of "a" 1 ∷ fill_of "b" 2 ∷ []);
    }
    ∷ record { broker_order_id = "124"; cumulative_qty = pos 1; fills = some (fill_of "c" 1 ∷ []) }
    ∷ []

abbrev snapshot_test : FillsSnapshot
snapshot_test = record { intent_id = three_shares.intent_id; orders = some orders_test }

abbrev reader_test : Reader
reader_test = record {
  parse_rat = parse_int;
  decode_fills = λ s. some snapshot_test;
  decode_query = λ s. none;
  http_get = λ s. some (answer 200 10 "{}");
}

snapshot_test-read : read_fills reader_test client_test ≡ ok snapshot_test
unfolding read_fills normalize parse_int add64 wrap64 ◌+ℤ◌
snapshot_test-read = refl

read_fills-GoodOrders_example :
    (os : List LedgerOrder) × (snapshot_test.orders ≡ some os)
    × (snapshot_test.intent_id ≡ three_shares.intent_id)
    × GoodOrders reader_test three_shares.side [] [] os
read_fills-GoodOrders_example =
    read_fills-GoodOrders reader_test client_test snapshot_test snapshot_test-read
