-- ===== src/Exec/Machine/Safety.antt =====
-- What a send says of the state it is accepted in (internal/exec/machine.go, `Apply`).
use fillwire.Prelude.{
  ◌≡◌, refl, true, false, Option, none, some, is_none, ok, arith, AllPass, ◌&&◌, not, eq_iff,
}
use fillwire.Prelude.Int.{ℤ, pos, ◌≤ℤ◌, ◌+ℤ◌, max_ℤ, ◌-ℤ◌, -ℤ_parts, +ℤ_parts}
use fillwire.Exec.State.{send, Record, Child, State, is_opening, remaining, find_key}
use fillwire.Exec.Machine.{apply, dispatch, worse, send_checks, sent_state, not, outside_bounds}
use fillwire.Exec.Machine.Invariant.{IsValid}
use fillwire.Exec.Machine.Accept.{apply-ok}
use fillwire.Exec.Intent.{worse, Intent}
use fillwire.Exec.Machine.Send.{target_bounds, send-AllPass, max_ℤ_bounds}
use fillwire.Prelude.Word.{sub64-nonneg}
use fillwire.Exec.Intent.Limits.{validate-GoodLimits}

max_ℤ_above : (a b : ℤ) → (a ≤ℤ max_ℤ a b) × (b ≤ℤ max_ℤ a b)
max_ℤ_above a b = (ground arith, ground arith)

-- What remains is exact, so it bounds what is sent with what has filled.
remaining-exact :
    (s : State) (q : ℤ)
    → IsValid s
    → q ≤ℤ remaining s
    → (q +ℤ s.filled ≤ℤ s.target) × (q +ℤ s.broker_filled ≤ℤ s.target)
unfolding remaining
remaining-exact s q v h =
    let m = max_ℤ s.filled s.broker_filled in
    let (low, small) = target_bounds s v in
    let (nonneg, m64) =
      max_ℤ_bounds s.filled s.broker_filled v.broker_nonneg v.filled_int64.0 v.broker_int64.0 in
    let (f, b) = max_ℤ_above s.filled s.broker_filled in
    let exact = sub64-nonneg s.target m (omega arith) small nonneg m64 in
    let h' : q ≤ℤ s.target -ℤ m = rw exact at h in
    (
      omega (arith, -ℤ_parts s.target m, +ℤ_parts q s.filled, h', f),
      omega (arith, -ℤ_parts s.target m, +ℤ_parts q s.broker_filled, h', b),
    )

worse_trans :
    (i : Intent) (a b c : ℤ) → worse i a b ≡ false → worse i b c ≡ false → worse i a c ≡ false
worse_trans i a b c h k = ground arith

none_of_is_none {ℓ} : {A : Type ℓ} (o : Option A) → not (is_none o) ≡ false → o ≡ none
none_of_is_none none h = refl
none_of_is_none (some a) h = ground arith

sent-checks :
    (s n : State) (r : Record) (c : Child)
    → apply s r ≡ ok n
    → r.kind ≡ send
    → r.child ≡ some c
    → AllPass (send_checks s c) × (n ≡ sent_state s r.at_ns r.reason c)
unfolding dispatch
sent-checks s n r c h k rc =
    send-AllPass s n r.at_ns r.reason c (ground (arith, (apply-ok s n r h).1))

-- A submit or an amend that `Apply` accepts in a valid state: nothing is in flight, the intent is
-- neither done nor halted, the key is new; the quantity is positive and with the ledger fills, and
-- with the broker's, stays within the target; the price is positive and not worse than the limit
-- price of the intent.
pub send_within_authority :
    (s n : State) (r : Record) (c : Child)
    → IsValid s
    → apply s r ≡ ok n
    → r.kind ≡ send
    → r.child ≡ some c
    → is_opening c.action ≡ true
    → (s.in_flight ≡ none)
      × (s.done ≡ "")
      × (s.halt ≡ "")
      × (find_key c.key s.sent ≡ none)
      × (pos 1 ≤ℤ c.qty)
      × (c.qty +ℤ s.filled ≤ℤ s.target)
      × (c.qty +ℤ s.broker_filled ≤ℤ s.target)
      × (pos 1 ≤ℤ c.price)
      × (worse s.intent c.price s.intent.limit_price_krw ≡ false)
unfolding send_checks
send_within_authority s n r c v h k rc o =
    let p = (sent-checks s n r c h k rc).0 in
    let (q, rem, price, cap_ok) = opening_bounds s c p.1.1.1.1.1.0 in
    let (with_ledger, with_broker) = remaining-exact s c.qty v rem in
    (
      ground arith,
      ground (arith, eq_iff s.done ""),
      ground (arith, eq_iff s.halt ""),
      none_of_is_none (find_key c.key s.sent) p.1.1.1.0,
      q,
      with_ledger,
      with_broker,
      price,
      worse_trans s.intent c.price s.cap s.intent.limit_price_krw cap_ok
          (rw v.cap_of (validate-GoodLimits s.intent v.intent_valid).0.1),
    )
  where
    opening_bounds :
        (s' : State) (c' : Child)
        → (is_opening c.action && outside_bounds s' c') ≡ false
        → (pos 1 ≤ℤ c'.qty)
          × (c'.qty ≤ℤ remaining s')
          × (pos 1 ≤ℤ c'.price)
          × (worse s'.intent c'.price s'.cap ≡ false)
    opening_bounds s' c' t =
        let t' : outside_bounds s' c' ≡ false = rw o at t in
        (ground arith, ground arith, ground arith, ground arith)
