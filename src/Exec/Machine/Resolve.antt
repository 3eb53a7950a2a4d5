-- ===== src/Exec/Machine/Resolve.antt =====
-- The invariant behind outcomes and reconciles (internal/exec/machine.go).
use fillwire.Exec.State.{
  Status, Outcome, accepted, uncertain, refused, done_refused, Action, submit, amend, cancel,
  other_action, Child, Order, View, State, find_key, is_unknown, is_cancel,
}
use fillwire.Prelude.{
  ◌≡◌, refl, String, Bool, true, false, Option, none, some, is_none, ok, arith, if◌then◌else◌, ◌&&◌,
  subst,
}
use fillwire.Prelude.Int.{ℤ, pos, ◌≤ℤ◌, max_ℤ}
use fillwire.Prelude.Word.{IsInt64}
use fillwire.Exec.Machine.{
  apply_outcome, apply_reconcile, max_ℤ, is_unknown, Status, is_cancel, view_refusal, resolve,
  Outcome, done_refused, uncertain, reconciled, clear_in_flight, resolve_cancel,
  is_cancel_in_flight,
}
use fillwire.Exec.Machine.Accept.{unless_opt-ok}
use fillwire.Exec.Machine.Invariant.{
  IsValid, KnownOrder, KnownFlight, GoodChild, CarriesBounds, ViewInt64,
}
use fillwire.Exec.Machine.Keys.{All-find_key}

-- A change of the working order, of the child in flight and of the two closing reasons.
abbrev pub moved :
    State → Option Order → Option Child → Option Status → String → String → String → State
moved s o f st reason halt done = record s {
  order = o;
  in_flight = f;
  in_flight_status = st;
  in_flight_reason = reason;
  halt = halt;
  done = done;
}

pub moved-IsValid :
    (s : State) (o : Option Order) (f : Option Child) (st : Option Status)
    (reason halt done : String)
    → IsValid s
    → KnownOrder s o
    → KnownFlight s f
    → IsValid (moved s o f st reason halt done)
moved-IsValid s o f st reason halt done v ko kf = record {
  intent_valid = v.intent_valid;
  cap_of = v.cap_of;
  target_of = v.target_of;
  broker_nonneg = v.broker_nonneg;
  broker_int64 = v.broker_int64;
  filled_int64 = v.filled_int64;
  children = v.children;
  keys = v.keys;
  order_known = KnownOrder-moved o ko;
  flight_known = KnownFlight-moved f kf;
  fills_good = v.fills_good;
  fills_distinct = v.fills_distinct;
  filled_sum = v.filled_sum;
  notional_sum = v.notional_sum;
}
  where
    KnownOrder-moved :
        (o' : Option Order) → KnownOrder s o' → KnownOrder (moved s o f st reason halt done) o'
    KnownOrder-moved none h = tt
    KnownOrder-moved (some x) h = h

    KnownFlight-moved :
        (f' : Option Child) → KnownFlight s f' → KnownFlight (moved s o f st reason halt done) f'
    KnownFlight-moved none h = tt
    KnownFlight-moved (some x) h = h

-- An accepted submit or amend that was in flight may become the working order.
new-KnownOrder :
    (s : State) (c : Child) (a : Action)
    → IsValid s
    → find_key c.key s.sent ≡ some c
    → is_unknown a ≡ false
    → is_cancel a ≡ false
    → CarriesBounds a s.intent c
    → KnownOrder s (some (record { key = c.key; price = c.price; qty = c.qty }))
new-KnownOrder s c submit v f u n b = (rw f refl, rw v.cap_of b.3)
new-KnownOrder s c amend v f u n b = (rw f refl, rw v.cap_of b.3)
new-KnownOrder s c cancel v f u n b = ground arith
new-KnownOrder s c (other_action x) v f u n b = ground arith

resolve-IsValid :
    (s : State) (deferred : Bool) (c : Child) (a : Action) (st : Status)
    → IsValid s
    → s.in_flight ≡ some c
    → find_key c.key s.sent ≡ some c
    → is_unknown a ≡ false
    → CarriesBounds a s.intent c
    → IsValid (resolve s deferred c a st)
unfolding resolve
resolve-IsValid s true c cancel accepted v e f u b =
    moved-IsValid s none none none "" s.in_flight_reason s.done v tt tt
resolve-IsValid s false c cancel accepted v e f u b =
    moved-IsValid s none none none "" s.halt s.in_flight_reason v tt tt
resolve-IsValid s d c submit accepted v e f u b =
    moved-IsValid s _ none none "" s.halt s.done v (new-KnownOrder s c submit v f u refl b) tt
resolve-IsValid s d c amend accepted v e f u b =
    moved-IsValid s _ none none "" s.halt s.done v (new-KnownOrder s c amend v f u refl b) tt
resolve-IsValid s d c (other_action x) st v e f u b = ground arith
resolve-IsValid s d c submit refused v e f u b =
    moved-IsValid s s.order none none "" done_refused s.done v v.order_known tt
resolve-IsValid s d c amend refused v e f u b =
    moved-IsValid s s.order none none "" done_refused s.done v v.order_known tt
resolve-IsValid s d c cancel refused v e f u b =
    moved-IsValid s s.order s.in_flight (some uncertain) s.in_flight_reason s.halt s.done v
      v.order_known v.flight_known
resolve-IsValid s d c a st v e f u b =
    moved-IsValid s s.order s.in_flight (some uncertain) s.in_flight_reason s.halt s.done v
      v.order_known v.flight_known

pub outcome-IsValid :
    (s n : State) (deferred : Bool) (oo : Option Outcome) (f : Option Child)
    → IsValid s
    → s.in_flight ≡ f
    → apply_outcome s deferred oo f ≡ ok n
    → IsValid n
unfolding apply_outcome
outcome-IsValid s n d none f v e h = ground arith
outcome-IsValid s n d (some o) none v e h = ground arith
outcome-IsValid s n d (some o) (some c) v e h =
    let known = subst (KnownFlight s) e v.flight_known in
    let good = All-find_key (GoodChild s.intent) c.key s.sent v.children known in
    let n-eq : n ≡ resolve s d c c.action o.status = ground arith in
    rw n-eq (resolve-IsValid s d c c.action o.status v e known good.2 good.3)

view-KnownOrder : (s : State) (o : Option Order) → view_refusal s o ≡ none → KnownOrder s o
unfolding view_refusal
view-KnownOrder s none h = tt
view-KnownOrder s (some o) h = (ground arith, ground arith)

-- A larger quantity reported by the broker.
reported-IsValid :
    (s : State) (q : ℤ)
    → IsValid s
    → IsInt64 q
    → IsValid (record s { broker_filled = max_ℤ s.broker_filled q })
reported-IsValid s q v w = record {
  intent_valid = v.intent_valid;
  cap_of = v.cap_of;
  target_of = v.target_of;
  broker_nonneg = max-nonneg s.broker_filled q v.broker_nonneg;
  broker_int64 = max-IsInt64 s.broker_filled q v.broker_int64 w;
  filled_int64 = v.filled_int64;
  children = v.children;
  keys = v.keys;
  order_known = same-KnownOrder s.order v.order_known;
  flight_known = same-KnownFlight s.in_flight v.flight_known;
  fills_good = v.fills_good;
  fills_distinct = v.fills_distinct;
  filled_sum = v.filled_sum;
  notional_sum = v.notional_sum;
}
  where
    max-nonneg : (a b : ℤ) → pos 0 ≤ℤ a → pos 0 ≤ℤ max_ℤ a b
    max-nonneg a b h = ground arith

    max-IsInt64 : (a b : ℤ) → IsInt64 a → IsInt64 b → IsInt64 (max_ℤ a b)
    max-IsInt64 a b h k = (ground arith, ground arith)

    same-KnownOrder :
        (o : Option Order)
        → KnownOrder s o
        → KnownOrder (record s { broker_filled = max_ℤ s.broker_filled q }) o
    same-KnownOrder none h = tt
    same-KnownOrder (some x) h = h

    same-KnownFlight :
        (f : Option Child)
        → KnownFlight s f
        → KnownFlight (record s { broker_filled = max_ℤ s.broker_filled q }) f
    same-KnownFlight none h = tt
    same-KnownFlight (some x) h = h

KnownOrder-reported :
    (s : State) (q : ℤ) (o : Option Order)
    → KnownOrder s o
    → KnownOrder (record s { broker_filled = q }) o
KnownOrder-reported s q none h = tt
KnownOrder-reported s q (some x) h = h

reconciled-IsValid :
    (s : State) (deferred : Bool) (v : View)
    → IsValid s
    → IsInt64 v.filled_qty
    → KnownOrder s v.order
    → IsValid (reconciled s deferred v)
unfolding reconciled
reconciled-IsValid s d v valid w k =
    let m = max_ℤ s.broker_filled v.filled_qty in
    let r = reported-IsValid s v.filled_qty valid w in
    let ko = KnownOrder-reported s m v.order k in
    closing (is_cancel_in_flight s.in_flight && is_none v.order) d r ko
  where
    closing :
        (b d' : Bool)
        → IsValid (record s { broker_filled = max_ℤ s.broker_filled v.filled_qty })
        → KnownOrder (record s { broker_filled = max_ℤ s.broker_filled v.filled_qty }) v.order
        → IsValid (
            clear_in_flight (
              let n = record s {
                order = v.order;
                broker_filled = max_ℤ s.broker_filled v.filled_qty;
              } in
              if b then resolve_cancel n s.in_flight_reason d' else n))
    closing true true r ko =
        moved-IsValid (record s { broker_filled = max_ℤ s.broker_filled v.filled_qty }) v.order none
          none "" s.in_flight_reason s.done r ko tt
    closing true false r ko =
        moved-IsValid (record s { broker_filled = max_ℤ s.broker_filled v.filled_qty }) v.order none
          none "" s.halt s.in_flight_reason r ko tt
    closing false d' r ko =
        moved-IsValid (record s { broker_filled = max_ℤ s.broker_filled v.filled_qty }) v.order none
          none "" s.halt s.done r ko tt

pub reconcile-IsValid :
    (s n : State) (deferred : Bool) (ov : Option View)
    → IsValid s
    → ViewInt64 ov
    → apply_reconcile s deferred ov ≡ ok n
    → IsValid n
unfolding apply_reconcile
reconcile-IsValid s n d none v w h = ground arith
reconcile-IsValid s n d (some view) v w h =
    let (passed, n-eq) = unless_opt-ok (view_refusal s view.order) (reconciled s d view) h in
    rw n-eq (reconciled-IsValid s d view v w (view-KnownOrder s view.order passed))
