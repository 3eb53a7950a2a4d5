-- ===== src/Exec/Machine/Keeps.antt =====
-- The invariant behind every record (internal/exec/machine.go, `Apply`).
use fillwire.Exec.State.{
  start, send, outcome_of, reconcile, fill_of, finish, other_kind, Child, Order, Fill, State,
  find_fill, Record, started, Kind,
}
use fillwire.Prelude.{
  ◌≡◌, refl, String, false, Option, none, some, is_none, ok, arith, AllPass, ◌&&◌, not, inl, inr,
  ap, ◌⊎◌,
}
use fillwire.Prelude.Int.{ℤ}
use fillwire.Prelude.Word.{add64, mul64, add64-IsInt64}
use fillwire.Exec.Intent.{Intent}
use fillwire.Exec.Machine.{
  apply_start, apply_send, apply_fill, apply_finish, not, finish_checks, fill_checks, filled_state,
  apply, Record, started, dispatch, Kind, is_start, other_kind,
}
use fillwire.Exec.Machine.Accept.{unless-ok, no_child-err, apply-ok}
use fillwire.Exec.Machine.Invariant.{IsValid, KnownOrder, KnownFlight, GoodFill, ViewInt64}
use fillwire.Exec.Machine.Resolve.{moved-IsValid, outcome-IsValid, reconcile-IsValid}
use fillwire.Exec.Machine.Send.{not-false, start-ok, start-IsValid, send-AllPass, send-IsValid}

fill-IsValid : (s n : State) (of : Option Fill) → IsValid s → apply_fill s of ≡ ok n → IsValid n
unfolding apply_fill fill_checks
fill-IsValid s n none v h = ground arith
fill-IsValid s n (some f) v h =
    let (p, n-eq) = unless-ok (fill_checks s f) (filled_state s f) h in
    rw n-eq (record {
      intent_valid = v.intent_valid;
      cap_of = v.cap_of;
      target_of = v.target_of;
      broker_nonneg = v.broker_nonneg;
      broker_int64 = v.broker_int64;
      filled_int64 = add64-IsInt64 s.filled f.qty;
      children = v.children;
      keys = v.keys;
      order_known = order_same s.order v.order_known;
      flight_known = flight_same s.in_flight v.flight_known;
      fills_good = (good p, v.fills_good);
      fills_distinct = (not-false (is_none (find_fill f.fill_id s.fills)) p.1.0, v.fills_distinct);
      filled_sum = ap (λ (t : ℤ). add64 t f.qty) v.filled_sum;
      notional_sum = ap (λ (t : ℤ). add64 t (mul64 f.qty f.price)) v.notional_sum;
    })
  where
    order_same : (o : Option Order) → KnownOrder s o → KnownOrder (filled_state s f) o
    order_same none k = tt
    order_same (some x) k = k

    flight_same : (x : Option Child) → KnownFlight s x → KnownFlight (filled_state s f) x
    flight_same none k = tt
    flight_same (some x) k = k

    good : AllPass (fill_checks s f) → GoodFill s (f.fill_id, f)
    good p = (refl, ground arith, ground arith, ground arith, p.1.1.0)

sent-IsValid :
    (s n : State) (at_ns : ℤ) (reason : String) (oc : Option Child)
    → IsValid s
    → apply_send s at_ns reason oc ≡ ok n
    → IsValid n
sent-IsValid s n at_ns reason none v h = absurd (no_child-err s n at_ns reason h)
sent-IsValid s n at_ns reason (some c) v h =
    let (p, n-eq) = send-AllPass s n at_ns reason c h in rw n-eq (send-IsValid s at_ns reason c v p)

finish-IsValid :
    (s n : State) (reason : String) → IsValid s → apply_finish s reason ≡ ok n → IsValid n
unfolding apply_finish
finish-IsValid s n reason v h =
    let (p, n-eq) = unless-ok (finish_checks s reason) (record s { done = reason }) h in
    rw n-eq (
      moved-IsValid s s.order s.in_flight s.in_flight_status s.in_flight_reason s.halt reason v
        v.order_known v.flight_known)

started-IsValid : (s n : State) (oi : Option Intent) → apply_start s oi ≡ ok n → IsValid n
started-IsValid s n oi h =
    let (i, valid, n-eq) = start-ok s n oi h in rw n-eq (start-IsValid i valid)

dispatch-IsValid :
    (k : Kind) (s n : State) (r : Record)
    → IsValid s
    → ViewInt64 r.view
    → dispatch k s r ≡ ok n
    → IsValid n
unfolding dispatch
dispatch-IsValid start s n r v w h = started-IsValid s n r.intent h
dispatch-IsValid send s n r v w h = sent-IsValid s n r.at_ns r.reason r.child v h
dispatch-IsValid outcome_of s n r v w h =
    outcome-IsValid s n r.defer_finish r.outcome s.in_flight v refl h
dispatch-IsValid reconcile s n r v w h = reconcile-IsValid s n r.defer_finish r.view v w h
dispatch-IsValid fill_of s n r v w h = fill-IsValid s n r.fill v h
dispatch-IsValid finish s n r v w h = finish-IsValid s n r.reason v h
dispatch-IsValid (other_kind x) s n r v w h = ground arith

fresh-IsValid :
    (k : Kind) (s n : State) (r : Record)
    → started s ≡ false
    → (not (is_start k) && not (started s)) ≡ false
    → dispatch k s r ≡ ok n
    → IsValid n
unfolding dispatch
fresh-IsValid start s n r f g h = started-IsValid s n r.intent h
fresh-IsValid send s n r f g h = ground arith
fresh-IsValid _ s n r f g h = ground arith

-- A record that `Apply` accepts, in a state that is not started or that satisfies the invariant,
-- leads to a state that satisfies it. The filled quantity of the record's view is an int64.
pub apply-IsValid :
    (s n : State) (r : Record)
    → (started s ≡ false) ⊎ IsValid s
    → ViewInt64 r.view
    → apply s r ≡ ok n
    → IsValid n
apply-IsValid s n r v w h =
    let (begun, d) = apply-ok s n r h in
    elim v [
      | inl f ↦ fresh-IsValid r.kind s n r f begun d
      | inr valid ↦ dispatch-IsValid r.kind s n r valid w d
    ]
