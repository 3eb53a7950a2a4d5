-- ===== src/Exec/Machine/Accept.antt =====
-- What an accepted record says of the state that it was applied to.
use fillwire.Prelude.{
  Bool, false, ◌≡◌, Option, none, some, List, ok, err, first_error, first_error-none→AllPass,
  AllPass, arith, refl, not, String, ◌&&◌, Bool-cases, inl, inr, true,
}
use fillwire.Exec.State.{State, Record, started, Child}
use fillwire.Exec.Machine.{
  TransitionError, unless, apply_send, ℤ, apply, not, String, is_start, started, dispatch,
  send_checks, apply_start, apply_finish, finish_checks, Intent, Child, true, sent_state,
}
use fillwire.Prelude.Int.{ℤ}
use fillwire.Exec.Intent.{Intent}

err≢ok : {e : TransitionError} {s : State} → err e ≡ ok s → ⊥
err≢ok h = cc

pub unless-ok :
    (l : List (Bool × TransitionError)) (s : State) {n : State}
    → unless (first_error l) s ≡ ok n
    → AllPass l × (n ≡ s)
unless-ok l s h = (first_error-none→AllPass l (ground arith), ground arith)

pub unless_opt-ok :
    (o : Option TransitionError) (s : State) {n : State} → unless o s ≡ ok n → (o ≡ none) × (n ≡ s)
unless_opt-ok none s h = (refl, ground arith)
unless_opt-ok (some e) s h = ground arith

-- An accepted record passed the first test of `Apply`, and was accepted by its case.
pub apply-ok :
    (s n : State) (r : Record)
    → apply s r ≡ ok n
    → ((not (is_start r.kind) && not (started s)) ≡ false) × (dispatch r.kind s r ≡ ok n)
unfolding apply
apply-ok s n r h = elim (Bool-cases (not (is_start r.kind) && not (started s))) [
  | inl b ↦ absurd (err≢ok (rw b at h))
  | inr b ↦ (b, rw b at h)
]

pub no_child-err :
    (s n : State) (at_ns : ℤ) (reason : String) → apply_send s at_ns reason none ≡ ok n → ⊥
unfolding apply_send
no_child-err s n at_ns reason h = ground arith

-- What is refused in a started state, or while a child is in flight.
pub start_refused :
    (s n : State) (oi : Option Intent) → started s ≡ true → apply_start s oi ≡ ok n → ⊥
unfolding apply_start
start_refused s n none b h = ground arith
start_refused s n (some i) b h = err≢ok (rw b at h)

pub send_refused :
    (s n : State) (at_ns : ℤ) (reason : String) (oc : Option Child) (c : Child)
    → s.in_flight ≡ some c
    → apply_send s at_ns reason oc ≡ ok n
    → ⊥
unfolding apply_send send_checks
send_refused s n at_ns reason none c e h = ground arith
send_refused s n at_ns reason (some d) c e h =
    let p = (unless-ok (send_checks s d) (sent_state s at_ns reason d) h).0 in ground arith

pub finish_refused :
    (s n : State) (reason : String) (c : Child)
    → s.in_flight ≡ some c
    → apply_finish s reason ≡ ok n
    → ⊥
unfolding apply_finish finish_checks
finish_refused s n reason c e h =
    let p = (unless-ok (finish_checks s reason) (record s { done = reason }) h).0 in ground arith
