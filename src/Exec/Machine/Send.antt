-- ===== src/Exec/Machine/Send.antt =====
-- The invariant behind a start and a send (internal/exec/machine.go).
use fillwire.Prelude.{
  ◌^◌, ◌<◌, ◌≡◌, refl, String, Bool, true, false, Option, none, some, [], ◌∷◌, ◌++◌, All-append,
  All-map, is_none, ok, arith, AllPass, ◌&&◌, str_eq, not,
}
use fillwire.Prelude.Int.{ℤ, pos, pos_part, ◌≤ℤ◌, max_ℤ, -ℤ_parts, neg_part_of_nonneg}
use fillwire.Prelude.Word.{IsInt64, sub64-nonneg}
use fillwire.Exec.Intent.{Intent, validate, target_qty, worse}
use fillwire.Exec.State.{
  Action, submit, amend, cancel, other_action, Child, Order, Fill, State, is_empty, find_key,
  is_opening, remaining,
}
use fillwire.Exec.Machine.{
  start_state, apply_start, apply_send, send_checks, sent_state, max_ℤ, str_eq, outside_bounds, not,
}
use fillwire.Exec.Machine.Accept.{unless-ok}
use fillwire.Exec.Machine.Invariant.{IsValid, KnownOrder, GoodChild, GoodFill, CarriesBounds}
use fillwire.Exec.Intent.Limits.{validate-GoodLimits, validate-InBounds}
use fillwire.Exec.Machine.Keys.{known-append, DistinctKeys-snoc, find_key-snoc}

pub start-ok :
    (s n : State) (oi : Option Intent)
    → apply_start s oi ≡ ok n
    → (i : Intent) × (validate i ≡ none) × (n ≡ start_state i)
unfolding apply_start
start-ok s n none h = ground arith
start-ok s n (some i) h = (i, ground arith, ground arith)

pub start-IsValid : (i : Intent) → validate i ≡ none → IsValid (start_state i)
start-IsValid i h = record {
  intent_valid = h;
  cap_of = refl;
  target_of = refl;
  broker_nonneg = omega arith;
  broker_int64 = (omega arith, omega arith);
  filled_int64 = (omega arith, omega arith);
  children = tt;
  keys = tt;
  order_known = tt;
  flight_known = tt;
  fills_good = tt;
  fills_distinct = tt;
  filled_sum = refl;
  notional_sum = refl;
}

pub max_ℤ_bounds :
    (a b : ℤ)
    → pos 0 ≤ℤ b
    → pos_part a < 2 ^ 63
    → pos_part b < 2 ^ 63
    → (pos 0 ≤ℤ max_ℤ a b) × (pos_part (max_ℤ a b) < 2 ^ 63)
max_ℤ_bounds a b h j k = (ground arith, ground arith)

-- What may still be sent is at most the target.
pub remaining-le-target :
    (s : State)
    → pos 1 ≤ℤ s.target
    → pos_part s.target < 2 ^ 63
    → pos 0 ≤ℤ s.broker_filled
    → IsInt64 s.broker_filled
    → IsInt64 s.filled
    → remaining s ≤ℤ s.target
unfolding remaining
remaining-le-target s t u b b64 f64 =
    let m = max_ℤ s.filled s.broker_filled in
    let (nonneg, small) = max_ℤ_bounds s.filled s.broker_filled b f64.0 b64.0 in
    rw (sub64-nonneg s.target m (omega arith) u nonneg small)
      (omega (arith, -ℤ_parts s.target m, nonneg))

pub target_bounds : (s : State) → IsValid s → (pos 1 ≤ℤ s.target) × (pos_part s.target < 2 ^ 63)
target_bounds s v =
    let (lower, upper, _, _) = (validate-GoodLimits s.intent v.intent_valid).1 in
    let q = (validate-InBounds s.intent v.intent_valid).quantity in
    rw v.target_of (
      lower,
      omega (
        arith,
        neg_part_of_nonneg s.intent.max_quantity,
        neg_part_of_nonneg (target_qty s.intent),
      ),
    )

-- The facts that a send was accepted on.
pub send-AllPass :
    (s n : State) (at_ns : ℤ) (reason : String) (c : Child)
    → apply_send s at_ns reason (some c) ≡ ok n
    → AllPass (send_checks s c) × (n ≡ sent_state s at_ns reason c)
unfolding apply_send
send-AllPass s n at_ns reason c h = unless-ok (send_checks s c) (sent_state s at_ns reason c) h

-- The bounds of a child that an action carries, from the test of `Apply`.
bounds_of_test :
    (s : State) (c : Child)
    → outside_bounds s c ≡ false
    → remaining s ≤ℤ s.target
    → (pos 1 ≤ℤ c.qty)
      × (c.qty ≤ℤ s.target)
      × (pos 1 ≤ℤ c.price)
      × (worse s.intent c.price s.cap ≡ false)
bounds_of_test s c h r = (ground arith, ground arith, ground arith, ground arith)

carries-CarriesBounds :
    (s : State) (c : Child) (a : Action)
    → IsValid s
    → (is_opening a && outside_bounds s c) ≡ false
    → CarriesBounds a s.intent c
carries-CarriesBounds s c a v h =
    let (lower, small) = target_bounds s v in
    let r = remaining-le-target s lower small v.broker_nonneg v.broker_int64 v.filled_int64 in
    go a h r
  where
    go :
        (a : Action)
        → (is_opening a && outside_bounds s c) ≡ false
        → remaining s ≤ℤ s.target
        → CarriesBounds a s.intent c
    go submit h r = rw (← v.target_of, ← v.cap_of) (bounds_of_test s c h r)
    go amend h r = rw (← v.target_of, ← v.cap_of) (bounds_of_test s c h r)
    go cancel h r = tt
    go (other_action x) h r = tt

pub not-false : (b : Bool) → not b ≡ false → b ≡ true
not-false true h = refl
not-false false h = ground arith

sent-GoodChild :
    (s : State) (c : Child) → IsValid s → AllPass (send_checks s c) → GoodChild s.intent c
unfolding send_checks
sent-GoodChild s c v p = (
  not-false (str_eq c.intent_id s.intent.intent_id) p.1.0,
  p.1.1.0,
  p.1.1.1.1.1.1.1.0,
  carries-CarriesBounds s c c.action v p.1.1.1.1.1.0,
)

GoodFill-append :
    (s : State) (c : Child) (k : String) (f : Fill)
    → GoodFill s (k, f)
    → (k ≡ f.fill_id)
      × (is_empty f.fill_id ≡ false)
      × (pos 1 ≤ℤ f.qty)
      × (pos 1 ≤ℤ f.price)
      × (is_none (find_key f.key (s.sent ++ c ∷ [])) ≡ false)
GoodFill-append s c k f (a, b, d, e, g) = (a, b, d, e, known-append f.key s.sent (c ∷ []) g)

KnownOrder-append :
    (s : State) (at_ns : ℤ) (reason : String) (c : Child) (o : Option Order)
    → KnownOrder s o
    → KnownOrder (sent_state s at_ns reason c) o
KnownOrder-append s at_ns reason c none h = tt
KnownOrder-append s at_ns reason c (some o) h = (known-append o.key s.sent (c ∷ []) h.0, h.1)

pub send-IsValid :
    (s : State) (at_ns : ℤ) (reason : String) (c : Child)
    → IsValid s
    → AllPass (send_checks s c)
    → IsValid (sent_state s at_ns reason c)
unfolding send_checks
send-IsValid s at_ns reason c v p =
    let fresh = not-false _ p.1.1.1.0 in
    record {
      intent_valid = v.intent_valid;
      cap_of = v.cap_of;
      target_of = v.target_of;
      broker_nonneg = v.broker_nonneg;
      broker_int64 = v.broker_int64;
      filled_int64 = v.filled_int64;
      children =
          All-append (GoodChild s.intent) s.sent (c ∷ []) v.children (sent-GoodChild s c v p, tt);
      keys = DistinctKeys-snoc c s.sent v.keys fresh;
      order_known = KnownOrder-append s at_ns reason c s.order v.order_known;
      flight_known = find_key-snoc c s.sent fresh;
      fills_good = All-map (λ (k, f) h. GoodFill-append s c k f h) s.fills v.fills_good;
      fills_distinct = v.fills_distinct;
      filled_sum = v.filled_sum;
      notional_sum = v.notional_sum;
    }
