-- ===== src/Exec/Tests.antt =====
-- The theorems on internal/exec at concrete inputs: an intent to buy three shares below 70050, worked
-- from its start record over its first child.
mod Crash
mod Sending
use fillwire.Exec.Intent.{
  cap, Intent, Time, validate, field_checks, quantity_checks, worse, target_qty, inventory_room,
}
use fillwire.Exec.Tick.{tick_at, step_toward, floor_tick, ceil_tick}
use fillwire.Exec.Intent.Limits.{GoodCap, GoodTarget, validate-GoodLimits}
use fillwire.Prelude.Word.{sub64, wrap64, quot64}
use fillwire.Prelude.Int.{◌-ℤ◌, pos, negsuc, ◌≤ℤ◌, ◌<ℤ◌, ◌+ℤ◌}
use fillwire.Prelude.{◌≡◌, refl, false, none, some, [], ◌∷◌, ok, arith, inl, inr, ◌⊎◌}
use fillwire.Exec.Side.{buy, sell, other_side}
use fillwire.Exec.State.{
  State, Record, Child, submit, start, send, outcome_of, find_key, uncertain, remaining,
}
use fillwire.Exec.Machine.{
  start_state, apply, sent_state, dispatch, apply_start, apply_send, send_checks, resolve,
  apply_outcome,
}
use fillwire.Exec.Machine.Invariant.{IsValid}
use fillwire.Exec.Decide.{blank_record}
use fillwire.Exec.Machine.Keeps.{apply-IsValid}
use fillwire.Exec.Intent.Pattern.{is_uuid, is_krx_symbol, is_reference}
use fillwire.Exec.Tick.Grid.{
  IsGrid, step_toward-next_up, step_toward-next_down, floor_tick-greatest, ceil_tick-least,
}
use fillwire.Exec.Machine.Waits.{Waits, Settles, apply-Waits}
use fillwire.Exec.Machine.History.{Grows, apply-Grows}
use fillwire.Exec.Machine.Safety.{send_within_authority}
use fillwire.Exec.Journal.Valid.{Settled, replay-IsValid}
use fillwire.Exec.Journal.{Codec, replay, newline}

abbrev pub three_shares : Intent
three_shares = record {
  schema_version = pos 1;
  intent_id = "01234567-89ab-cdef-0123-456789abcdef";
  strategy = "wire";
  account = "kis_mock";
  venue = "krx";
  symbol = "005930";
  side = buy;
  max_quantity = pos 3;
  max_notional_krw = pos 300000;
  limit_price_krw = pos 70050;
  max_slippage_bps = pos 10;
  expires_at = record { seconds = pos 1800000000; nanos = 0 };
  inventory = record {
    position_at_authorization = pos 0;
    min_position_after = pos 0;
    max_position_after = pos 10;
  };
  policy_version = "p1";
  model_version = none;
  authorization_ref = "ref1";
  instrument_type = "";
}

pub three_shares-valid : validate three_shares ≡ none
unfolding validate field_checks quantity_checks is_uuid is_krx_symbol is_reference cap target_qty
    inventory_room floor_tick sub64 wrap64 ◌-ℤ◌ tick_at quot64
three_shares-valid = refl

abbrev pub zero_time : Time
zero_time = record { seconds = negsuc 62135596799; nanos = 0 }

-- The zero value of a `State`.
abbrev pub zero_state : State
zero_state = start_state (record {
  schema_version = pos 0;
  intent_id = "";
  strategy = "";
  account = "";
  venue = "";
  symbol = "";
  side = other_side "";
  max_quantity = pos 0;
  max_notional_krw = pos 0;
  limit_price_krw = pos 0;
  max_slippage_bps = pos 0;
  expires_at = zero_time;
  inventory = record {
    position_at_authorization = pos 0;
    min_position_after = pos 0;
    max_position_after = pos 0;
  };
  policy_version = "";
  model_version = none;
  authorization_ref = "";
  instrument_type = "";
})

abbrev pub started_state : State
started_state = start_state three_shares

abbrev pub begin : Record
begin = record blank_record { kind = start; at_ns = pos 7; intent = some three_shares }

abbrev pub first_child : Child
first_child = record {
  action = submit;
  intent_id = three_shares.intent_id;
  key = "01234567-89ab-cdef-0123-456789abcdef:1";
  target_key = "";
  qty = pos 3;
  price = pos 69900;
}

abbrev pub first_send : Record
first_send = record blank_record {
  kind = send;
  at_ns = pos 8;
  child = some first_child;
  reason = "open";
}

abbrev pub sent_once : State
sent_once = sent_state started_state (pos 8) "open" first_child

pub begin-ok : apply zero_state begin ≡ ok started_state
unfolding apply dispatch apply_start
begin-ok = rw three_shares-valid refl

first_send-ok : apply started_state first_send ≡ ok sent_once
unfolding apply dispatch apply_send send_checks cap target_qty inventory_room floor_tick remaining
    find_key sub64 wrap64 ◌-ℤ◌ tick_at quot64
first_send-ok = refl

started_state-IsValid : IsValid started_state
started_state-IsValid = apply-IsValid zero_state started_state begin (inl refl) tt begin-ok

apply-IsValid_example : IsValid sent_once
apply-IsValid_example =
    apply-IsValid started_state sent_once first_send (inr started_state-IsValid) tt first_send-ok

send_within_authority_example :
    (started_state.in_flight ≡ none)
    × (started_state.done ≡ "")
    × (started_state.halt ≡ "")
    × (find_key first_child.key started_state.sent ≡ none)
    × (pos 1 ≤ℤ first_child.qty)
    × (first_child.qty +ℤ started_state.filled ≤ℤ started_state.target)
    × (first_child.qty +ℤ started_state.broker_filled ≤ℤ started_state.target)
    × (pos 1 ≤ℤ first_child.price)
    × (worse started_state.intent first_child.price started_state.intent.limit_price_krw ≡ false)
send_within_authority_example =
    send_within_authority started_state sent_once first_send first_child started_state-IsValid
      first_send-ok refl refl refl

-- An outcome that does not say whether the child arrived.
abbrev unclear : Record
unclear = record blank_record {
  kind = outcome_of;
  outcome = some (record {
    key = first_child.key;
    status = uncertain;
    reason = "timeout";
    broker_order_id = "";
  });
}

abbrev waiting : State
waiting = resolve sent_once false first_child submit uncertain

unclear-ok : apply sent_once unclear ≡ ok waiting
unfolding apply dispatch apply_outcome resolve
unclear-ok = refl

apply-Waits_example :
    Waits first_child sent_once waiting ⊎ Settles first_child sent_once waiting unclear
apply-Waits_example = apply-Waits sent_once waiting unclear first_child refl refl unclear-ok

apply-Grows_example : Grows started_state sent_once
apply-Grows_example = apply-Grows started_state sent_once first_send refl first_send-ok

validate-GoodLimits_example :
    GoodCap three_shares (cap three_shares) × GoodTarget three_shares (target_qty three_shares)
validate-GoodLimits_example = validate-GoodLimits three_shares three_shares-valid

floor_tick-greatest_example :
    IsGrid (floor_tick (pos 70050))
    × (floor_tick (pos 70050) ≤ℤ pos 70050)
    × (pos 69900 ≤ℤ floor_tick (pos 70050))
unfolding tick_at
floor_tick-greatest_example =
    floor_tick-greatest 70050 69900 (omega arith) (omega arith) refl (omega arith)

ceil_tick-least_example :
    IsGrid (ceil_tick (pos 70050))
    × (pos 70050 ≤ℤ ceil_tick (pos 70050))
    × (ceil_tick (pos 70050) ≤ℤ pos 70300)
unfolding tick_at
ceil_tick-least_example = ceil_tick-least 70050 70300 (omega arith) (omega arith) refl (omega arith)

step_toward-next_up_example :
    let p = step_toward buy (pos 49950) (pos 50100) in
    IsGrid p × (pos 49950 <ℤ p) × (p ≤ℤ pos 50000)
unfolding tick_at
step_toward-next_up_example =
    step_toward-next_up 49950 50100 50000 (omega arith) refl refl refl (omega arith) (omega arith)

step_toward-next_down_example :
    let p = step_toward sell (pos 50000) (pos 49900) in
    IsGrid p × (p <ℤ pos 50000) × (pos 49950 ≤ℤ p)
unfolding tick_at
step_toward-next_down_example =
    step_toward-next_down 50000 49900 49950 (omega arith) refl refl refl (omega arith) (omega arith)
