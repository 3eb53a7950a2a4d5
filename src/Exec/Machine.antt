-- ===== src/Exec/Machine.antt =====
-- internal/exec/machine.go: `Apply`, the only function that changes a `State`.
mod Accept
pub mod Invariant
mod Keys
mod Send
mod Resolve
pub mod Keeps
pub mod Safety
pub mod Waits
pub mod History
use fillwire.Prelude.{
  String, Bool, true, false, not, ◌&&◌, ◌||◌, Option, none, some, List, [], ◌∷◌, ◌++◌,
  if◌then◌else◌, str_eq, is_none, Result, ok, err, first_error,
}
use fillwire.Prelude.Int.{ℤ, pos, ltb_ℤ, max_ℤ}
use fillwire.Prelude.Word.{add64, mul64}
use fillwire.Exec.Intent.{Intent, IntentError, validate, cap, target_qty, worse}
use fillwire.Exec.State.{
  Action, Status, Child, Outcome, Order, View, Fill, Kind, Record, State, cancel, accepted,
  uncertain, refused, sending, start, send, outcome_of, reconcile, fill_of, finish, other_kind,
  done_refused, is_empty, started, remaining, sent_key, find_fill, is_submit, is_cancel, is_opening,
  is_unknown,
}

-- The refusals of `Apply`, each an `ErrTransition`.
pub data TransitionError : Type 0 where
  before_start repeated_start no_child unresolved wrong_intent empty_key key_reused :
      TransitionError
  after_halt outside_limits wrong_order unknown_action wrong_target : TransitionError
  no_matching_child no_view view_never_sent view_beyond_cap empty_fill : TransitionError
  fill_repeated fill_never_sent finish_unresolved finish_working unknown_kind : TransitionError
  invalid_intent : IntentError → TransitionError

abbrev pub Applied : Type 0
Applied = Result TransitionError State

-- The state that a refusal is none of, or the refusal.
abbrev pub unless : Option TransitionError → State → Applied
unless none n = ok n
unless (some e) n = err e

abbrev pub start_state : Intent → State
start_state i = record {
  intent = i;
  cap = cap i;
  target = target_qty i;
  filled = pos 0;
  fill_notional = pos 0;
  fills = [];
  broker_filled = pos 0;
  sent = [];
  order = none;
  in_flight = none;
  in_flight_status = none;
  in_flight_reason = "";
  last_move_ns = pos 0;
  halt = "";
  done = "";
}

unfoldable pub apply_start : State → Option Intent → Applied
apply_start s none = err repeated_start
apply_start s (some i) =
    if started s
    then err repeated_start
    else elim (validate i) [ some e ↦ err (invalid_intent e) | none ↦ ok (start_state i) ]

abbrev pub order_is_key : Option Order → String → Bool
order_is_key none k = false
order_is_key (some o) k = str_eq k o.key

-- A quantity or a price that a submit or an amend may not carry.
abbrev pub outside_bounds : State → Child → Bool
outside_bounds s c =
    ltb_ℤ c.qty (pos 1)
    || ltb_ℤ (remaining s) c.qty
    || ltb_ℤ c.price (pos 1)
    || worse s.intent c.price s.cap

-- A submit wants no working order, an amend wants one.
abbrev pub order_mismatch : State → Child → Bool
order_mismatch s c = if is_submit c.action then not (is_none s.order) else is_none s.order

unfoldable pub send_checks : State → Child → List (Bool × TransitionError)
send_checks s c =
    (not (is_empty s.done) || not (is_none s.in_flight), unresolved)
    ∷ (not (str_eq c.intent_id s.intent.intent_id), wrong_intent)
    ∷ (is_empty c.key, empty_key)
    ∷ (not (is_none (sent_key s c.key)), key_reused)
    ∷ (is_opening c.action && not (is_empty s.halt), after_halt)
    ∷ (is_opening c.action && outside_bounds s c, outside_limits)
    ∷ (is_opening c.action && order_mismatch s c, wrong_order)
    ∷ (is_unknown c.action, unknown_action)
    ∷ (not (is_submit c.action) && not (order_is_key s.order c.target_key), wrong_target)
    ∷ []

abbrev pub sent_state : State → ℤ → String → Child → State
sent_state s at_ns reason c = record s {
  sent = s.sent ++ c ∷ [];
  in_flight = some c;
  in_flight_status = some sending;
  in_flight_reason = reason;
  last_move_ns = if is_opening c.action then at_ns else s.last_move_ns;
}

unfoldable pub apply_send : State → ℤ → String → Option Child → Applied
unfolding send_checks
apply_send s at_ns reason none = err no_child
apply_send s at_ns reason (some c) =
    unless (first_error (send_checks s c)) (sent_state s at_ns reason c)

-- `resolveCancel`.
abbrev pub resolve_cancel : State → String → Bool → State
resolve_cancel n reason deferred =
    if deferred then record n { halt = reason } else record n { done = reason }

-- `n.InFlight, n.InFlightStatus, n.InFlightReason = nil, "", ""`.
abbrev pub clear_in_flight : State → State
clear_in_flight n = record n { in_flight = none; in_flight_status = none; in_flight_reason = "" }

-- The `switch` on the outcome of the child in flight. The last clauses are `default`: only a
-- reconcile clears a child whose outcome is not known.
unfoldable pub resolve : State → Bool → Child → Action → Status → State
resolve s deferred c cancel accepted =
    clear_in_flight (resolve_cancel (record s { order = none }) s.in_flight_reason deferred)
resolve s deferred c action accepted =
    clear_in_flight
      (record s { order = some (record { key = c.key; price = c.price; qty = c.qty }) })
resolve s deferred c cancel refused = record s { in_flight_status = some uncertain }
resolve s deferred c action refused = clear_in_flight (record s { halt = done_refused })
resolve s deferred c action status = record s { in_flight_status = some uncertain }

unfoldable pub apply_outcome : State → Bool → Option Outcome → Option Child → Applied
unfolding resolve
apply_outcome s deferred none flying = err no_matching_child
apply_outcome s deferred (some o) none = err no_matching_child
apply_outcome s deferred (some o) (some c) =
    if str_eq o.key c.key
    then ok (resolve s deferred c c.action o.status)
    else err no_matching_child

-- Why the working order of a view is refused.
unfoldable pub view_refusal : State → Option Order → Option TransitionError
view_refusal s none = none
view_refusal s (some o) =
    if is_none (sent_key s o.key)
    then some view_never_sent
    else if worse s.intent o.price s.cap
    then some view_beyond_cap
    else none

abbrev pub is_cancel_in_flight : Option Child → Bool
is_cancel_in_flight none = false
is_cancel_in_flight (some c) = is_cancel c.action

-- The state after a view that is not refused.
unfoldable pub reconciled : State → Bool → View → State
reconciled s deferred v =
    let n = record s { order = v.order; broker_filled = max_ℤ s.broker_filled v.filled_qty } in
    clear_in_flight (
      if is_cancel_in_flight s.in_flight && is_none v.order
      then resolve_cancel n s.in_flight_reason deferred
      else n)

unfoldable pub apply_reconcile : State → Bool → Option View → Applied
unfolding view_refusal reconciled
apply_reconcile s deferred none = err no_view
apply_reconcile s deferred (some v) = unless (view_refusal s v.order) (reconciled s deferred v)

unfoldable pub fill_checks : State → Fill → List (Bool × TransitionError)
fill_checks s f =
    (is_empty f.fill_id || ltb_ℤ f.qty (pos 1) || ltb_ℤ f.price (pos 1), empty_fill)
    ∷ (not (is_none (find_fill f.fill_id s.fills)), fill_repeated)
    ∷ (is_none (sent_key s f.key), fill_never_sent)
    ∷ []

abbrev pub filled_state : State → Fill → State
filled_state s f = record s {
  fills = (f.fill_id, f) ∷ s.fills;
  filled = add64 s.filled f.qty;
  fill_notional = add64 s.fill_notional (mul64 f.qty f.price);
}

unfoldable pub apply_fill : State → Option Fill → Applied
unfolding fill_checks
apply_fill s none = err empty_fill
apply_fill s (some f) = unless (first_error (fill_checks s f)) (filled_state s f)

unfoldable pub finish_checks : State → String → List (Bool × TransitionError)
finish_checks s reason =
    (not (is_empty s.done) || not (is_none s.in_flight) || is_empty reason, finish_unresolved)
    ∷ (not (is_none s.order), finish_working)
    ∷ []

unfoldable pub apply_finish : State → String → Applied
unfolding finish_checks
apply_finish s reason = unless (first_error (finish_checks s reason)) (record s { done = reason })

-- The `switch` on the kind of a record, behind the test that the intent was started.
unfoldable pub dispatch : Kind → State → Record → Applied
dispatch start s r = apply_start s r.intent
dispatch send s r = apply_send s r.at_ns r.reason r.child
dispatch outcome_of s r = apply_outcome s r.defer_finish r.outcome s.in_flight
dispatch reconcile s r = apply_reconcile s r.defer_finish r.view
dispatch fill_of s r = apply_fill s r.fill
dispatch finish s r = apply_finish s r.reason
dispatch (other_kind _) s r = err unknown_kind

abbrev pub is_start : Kind → Bool
is_start start = true
is_start _ = false

-- `Apply`.
unfoldable pub apply : State → Record → Applied
unfolding dispatch
apply s r =
    if not (is_start r.kind) && not (started s) then err before_start else dispatch r.kind s r
