-- ===== src/Exec/Machine/History.antt =====
-- What a journal record leaves of the history (internal/exec/machine.go, `Apply`).
use fillwire.Prelude.{
  ◌≡◌, refl, String, Bool, true, false, Option, none, some, List, [], ◌∷◌, ◌++◌, is_none, ok, arith,
  ◌∙◌, length, ◌≤◌, sym, if◌then◌else◌, ◌&&◌,
}
use mathlib.Core.List.{append-nil}
use fillwire.Exec.State.{
  start, send, outcome_of, reconcile, fill_of, finish, other_kind, accepted, refused, Action,
  Status, submit, amend, cancel, other_action, Kind, Record, Child, Fill, State, started, Outcome,
  View,
}
use fillwire.Exec.Machine.{
  apply, dispatch, apply_send, apply_outcome, apply_reconcile, apply_fill, apply_finish, resolve,
  reconciled, Outcome, ℤ, View, send_checks, finish_checks, fill_checks, clear_in_flight,
  view_refusal, sent_state, max_ℤ, filled_state, resolve_cancel, is_cancel_in_flight,
}
use fillwire.Exec.Machine.Accept.{apply-ok, start_refused, unless-ok, unless_opt-ok}
use fillwire.Prelude.Int.{ℤ, max_ℤ}

-- The intent, its cap and its target are as they were; the children sent are the earlier ones with
-- at most one more; the fills are the earlier ones with at most one more.
pub record Grows (s n : State) : Type 0 where
  pub children : List Child
  pub sent_eq : n.sent ≡ s.sent ++ children
  pub one_child : length children ≤ 1
  pub fills : List (String × Fill)
  pub fills_eq : n.fills ≡ fills ++ s.fills
  pub one_fill : length fills ≤ 1
  pub intent_eq : n.intent ≡ s.intent
  pub cap_eq : n.cap ≡ s.cap
  pub target_eq : n.target ≡ s.target

-- A state that differs in neither history.
same-Grows :
    (s n : State)
    → n.sent ≡ s.sent
    → n.fills ≡ s.fills
    → n.intent ≡ s.intent
    → n.cap ≡ s.cap
    → n.target ≡ s.target
    → Grows s n
same-Grows s n se fe ie ce te = record {
  children = [];
  sent_eq = se ∙ sym (append-nil s.sent);
  one_child = omega arith;
  fills = [];
  fills_eq = fe;
  one_fill = omega arith;
  intent_eq = ie;
  cap_eq = ce;
  target_eq = te;
}

resolve-Grows :
    (s : State) (d : Bool) (c : Child) (a : Action) (st : Status) → Grows s (resolve s d c a st)
unfolding resolve
resolve-Grows s true c cancel accepted = same-Grows s _ refl refl refl refl refl
resolve-Grows s false c cancel accepted = same-Grows s _ refl refl refl refl refl
resolve-Grows s d c submit accepted = same-Grows s _ refl refl refl refl refl
resolve-Grows s d c amend accepted = same-Grows s _ refl refl refl refl refl
resolve-Grows s d c (other_action x) accepted = same-Grows s _ refl refl refl refl refl
resolve-Grows s d c cancel refused = same-Grows s _ refl refl refl refl refl
resolve-Grows s d c a refused = same-Grows s _ refl refl refl refl refl
resolve-Grows s d c a st = same-Grows s _ refl refl refl refl refl

outcome-Grows :
    (s n : State) (d : Bool) (oo : Option Outcome) (oc : Option Child)
    → apply_outcome s d oo oc ≡ ok n
    → Grows s n
unfolding apply_outcome
outcome-Grows s n d none oc h = ground arith
outcome-Grows s n d (some o) none h = ground arith
outcome-Grows s n d (some o) (some c) h =
    let n-eq : n ≡ resolve s d c c.action o.status = ground arith in
    rw n-eq (resolve-Grows s d c c.action o.status)

reconciled-Grows : (s : State) (d : Bool) (v : View) → Grows s (reconciled s d v)
unfolding reconciled
reconciled-Grows s d v = closing (is_cancel_in_flight s.in_flight && is_none v.order) d
  where
    closing :
        (b d' : Bool)
        → Grows s (
            clear_in_flight (
              let n = record s {
                order = v.order;
                broker_filled = max_ℤ s.broker_filled v.filled_qty;
              } in
              if b then resolve_cancel n s.in_flight_reason d' else n))
    closing true true = same-Grows s _ refl refl refl refl refl
    closing true false = same-Grows s _ refl refl refl refl refl
    closing false d' = same-Grows s _ refl refl refl refl refl

reconcile-Grows :
    (s n : State) (d : Bool) (ov : Option View) → apply_reconcile s d ov ≡ ok n → Grows s n
unfolding apply_reconcile
reconcile-Grows s n d none h = ground arith
reconcile-Grows s n d (some v) h =
    rw (unless_opt-ok (view_refusal s v.order) (reconciled s d v) h).1 (reconciled-Grows s d v)

send-Grows :
    (s n : State) (at_ns : ℤ) (reason : String) (oc : Option Child)
    → apply_send s at_ns reason oc ≡ ok n
    → Grows s n
unfolding apply_send
send-Grows s n at_ns reason none h = ground arith
send-Grows s n at_ns reason (some c) h =
    rw (unless-ok (send_checks s c) (sent_state s at_ns reason c) h).1 (record {
      children = c ∷ [];
      sent_eq = refl;
      one_child = omega arith;
      fills = [];
      fills_eq = refl;
      one_fill = omega arith;
      intent_eq = refl;
      cap_eq = refl;
      target_eq = refl;
    })

fill-Grows : (s n : State) (of : Option Fill) → apply_fill s of ≡ ok n → Grows s n
unfolding apply_fill
fill-Grows s n none h = ground arith
fill-Grows s n (some f) h = rw (unless-ok (fill_checks s f) (filled_state s f) h).1 (record {
  children = [];
  sent_eq = sym (append-nil s.sent);
  one_child = omega arith;
  fills = (f.fill_id, f) ∷ [];
  fills_eq = refl;
  one_fill = omega arith;
  intent_eq = refl;
  cap_eq = refl;
  target_eq = refl;
})

finish-Grows : (s n : State) (reason : String) → apply_finish s reason ≡ ok n → Grows s n
unfolding apply_finish
finish-Grows s n reason h =
    rw (unless-ok (finish_checks s reason) (record s { done = reason }) h).1
      (same-Grows s _ refl refl refl refl refl)

dispatch-Grows :
    (k : Kind) (s n : State) (r : Record) → started s ≡ true → dispatch k s r ≡ ok n → Grows s n
unfolding dispatch
dispatch-Grows start s n r b h = absurd (start_refused s n r.intent b h)
dispatch-Grows send s n r b h = send-Grows s n r.at_ns r.reason r.child h
dispatch-Grows outcome_of s n r b h = outcome-Grows s n r.defer_finish r.outcome s.in_flight h
dispatch-Grows reconcile s n r b h = reconcile-Grows s n r.defer_finish r.view h
dispatch-Grows fill_of s n r b h = fill-Grows s n r.fill h
dispatch-Grows finish s n r b h = finish-Grows s n r.reason h
dispatch-Grows (other_kind x) s n r b h = ground arith

-- In a started state, a record that is accepted changes neither the intent nor its cap nor its
-- target; it adds at most one child behind those sent and at most one fill, and takes none away.
pub apply-Grows : (s n : State) (r : Record) → started s ≡ true → apply s r ≡ ok n → Grows s n
apply-Grows s n r b h = dispatch-Grows r.kind s n r b (apply-ok s n r h).1
