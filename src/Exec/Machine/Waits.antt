-- ===== src/Exec/Machine/Waits.antt =====
-- The child whose outcome is not known (internal/exec/machine.go, `Apply`).
use fillwire.Prelude.{
  ◌≡◌, refl, ◌⊎◌, inl, inr, Bool, true, false, Option, none, some, ok, arith, str_eq, Bool-cases,
  ◌&&◌, is_none,
}
use fillwire.Exec.State.{
  start, send, outcome_of, reconcile, fill_of, finish, other_kind, accepted, uncertain, sending,
  conflict, other_status, refused, Action, Status, submit, amend, cancel, other_action, Kind,
  Record, Child, Fill, State, is_cancel, started, Outcome, View, done_refused, Order,
}
use fillwire.Exec.Machine.{
  apply, dispatch, apply_outcome, apply_fill, resolve, Outcome, str_eq, fill_checks, filled_state,
  apply_reconcile, reconciled, view_refusal, is_cancel_in_flight, Order,
}
use fillwire.Exec.Machine.Accept.{
  apply-ok, start_refused, send_refused, unless-ok, finish_refused, unless_opt-ok,
}

-- The children sent and the closing reasons are as they were.
abbrev pub Goes : State → State → Type 0
Goes s n = (n.sent ≡ s.sent) × (n.halt ≡ s.halt) × (n.done ≡ s.done)

-- The reason of the cancel in flight closes the intent, or halts it where the end is deferred.
abbrev pub Closes : Bool → State → State → Type 0
Closes true s n = (n.sent ≡ s.sent) × (n.halt ≡ s.in_flight_reason) × (n.done ≡ s.done)
Closes false s n = (n.sent ≡ s.sent) × (n.halt ≡ s.halt) × (n.done ≡ s.in_flight_reason)

-- The working order behind an accepted child: none behind a cancel, which closes, else the child.
abbrev pub Works : Bool → Child → State → State → Type 0
Works d c s n =
    ((is_cancel c.action ≡ true) × (n.order ≡ none) × Closes d s n)
    ⊎ ((is_cancel c.action ≡ false)
        × (n.order ≡ some (record { key = c.key; price = c.price; qty = c.qty }))
        × Goes s n)

-- Only the halt is new, which is that of a refused child.
abbrev pub Halts : State → State → Type 0
Halts s n = (n.sent ≡ s.sent) × (n.order ≡ s.order) × (n.halt ≡ done_refused) × (n.done ≡ s.done)

-- What settles a child in flight, and the state behind it: a view of the broker, or an outcome under
-- its key that accepts it or that refuses a submit or an amend. No child is in flight then.
pub data Settles (c : Child) (s n : State) (r : Record) : Type 0 where
  by_view :
      (v : View)
      → r.kind ≡ reconcile
      → r.view ≡ some v
      → n.in_flight ≡ none
      → n.order ≡ v.order
      → Goes s n ⊎ ((is_cancel c.action ≡ true) × (v.order ≡ none) × Closes r.defer_finish s n)
      → Settles c s n r
  by_acceptance :
      (o : Outcome)
      → r.kind ≡ outcome_of
      → r.outcome ≡ some o
      → str_eq o.key c.key ≡ true
      → o.status ≡ accepted
      → n.in_flight ≡ none
      → Works r.defer_finish c s n
      → Settles c s n r
  by_refusal :
      (o : Outcome)
      → r.kind ≡ outcome_of
      → r.outcome ≡ some o
      → str_eq o.key c.key ≡ true
      → o.status ≡ refused
      → is_cancel c.action ≡ false
      → n.in_flight ≡ none
      → Halts s n
      → Settles c s n r

-- The child, the children sent, the working order and the closing reasons are as they were.
abbrev pub Waits : Child → State → State → Type 0
Waits c s n =
    (n.in_flight ≡ some c)
    × (n.sent ≡ s.sent)
    × (n.order ≡ s.order)
    × (n.halt ≡ s.halt)
    × (n.done ≡ s.done)

-- How an outcome of a status leaves a child in flight.
abbrev Resolves : Bool → Child → Action → Status → State → State → Type 0
Resolves d c a st s n =
    Waits c s n
    ⊎ (((st ≡ accepted) × (n.in_flight ≡ none) × Works d (record c { action = a }) s n)
        ⊎ ((st ≡ refused) × (is_cancel a ≡ false) × (n.in_flight ≡ none) × Halts s n))

resolve-Resolves :
    (s : State) (d : Bool) (c : Child) (a : Action) (st : Status)
    → s.in_flight ≡ some c
    → Resolves d c a st s (resolve s d c a st)
unfolding resolve
resolve-Resolves s true c cancel accepted e =
    inr (inl (refl, refl, inl (refl, refl, (refl, refl, refl))))
resolve-Resolves s false c cancel accepted e =
    inr (inl (refl, refl, inl (refl, refl, (refl, refl, refl))))
resolve-Resolves s d c submit accepted e =
    inr (inl (refl, refl, inr (refl, refl, (refl, refl, refl))))
resolve-Resolves s d c amend accepted e =
    inr (inl (refl, refl, inr (refl, refl, (refl, refl, refl))))
resolve-Resolves s d c (other_action x) accepted e =
    inr (inl (refl, refl, inr (refl, refl, (refl, refl, refl))))
resolve-Resolves s d c submit refused e = inr (inr (refl, refl, refl, (refl, refl, refl, refl)))
resolve-Resolves s d c amend refused e = inr (inr (refl, refl, refl, (refl, refl, refl, refl)))
resolve-Resolves s d c (other_action x) refused e =
    inr (inr (refl, refl, refl, (refl, refl, refl, refl)))
resolve-Resolves s d c cancel refused e = inl (e, refl, refl, refl, refl)
resolve-Resolves s d c cancel uncertain e = inl (e, refl, refl, refl, refl)
resolve-Resolves s d c cancel sending e = inl (e, refl, refl, refl, refl)
resolve-Resolves s d c cancel conflict e = inl (e, refl, refl, refl, refl)
resolve-Resolves s d c cancel (other_status x) e = inl (e, refl, refl, refl, refl)
resolve-Resolves s d c a uncertain e = inl (e, refl, refl, refl, refl)
resolve-Resolves s d c a sending e = inl (e, refl, refl, refl, refl)
resolve-Resolves s d c a conflict e = inl (e, refl, refl, refl, refl)
resolve-Resolves s d c a (other_status x) e = inl (e, refl, refl, refl, refl)

outcome-Waits :
    (s n : State) (r : Record) (c : Child) (oo : Option Outcome)
    → s.in_flight ≡ some c
    → r.kind ≡ outcome_of
    → r.outcome ≡ oo
    → apply_outcome s r.defer_finish oo (some c) ≡ ok n
    → Waits c s n ⊎ Settles c s n r
unfolding apply_outcome
outcome-Waits s n r c none e k ro h = ground arith
outcome-Waits s n r c (some o) e k ro h =
    let n-eq : n ≡ resolve s r.defer_finish c c.action o.status = ground arith in
    let same : str_eq o.key c.key ≡ true = ground arith in
    rw n-eq (elim (resolve-Resolves s r.defer_finish c c.action o.status e) [
      | inl w ↦ inl w
      | inr (inl (st, free, works)) ↦ inr (by_acceptance o k ro same st free works)
      | inr (inr (st, opening, free, halts)) ↦ inr (by_refusal o k ro same st opening free halts)
    ])

cancel_gone :
    (s : State) (c : Child) (o : Option Order)
    → s.in_flight ≡ some c
    → (is_cancel_in_flight s.in_flight && is_none o) ≡ true
    → (is_cancel c.action ≡ true) × (o ≡ none)
cancel_gone s c none e h =
    let k : is_cancel_in_flight s.in_flight ≡ true = ground arith in (rw e at k, refl)
cancel_gone s c (some o) e h = absurd (ground arith)

reconciled-Settles :
    (s : State) (r : Record) (v : View) (c : Child)
    → s.in_flight ≡ some c
    → r.kind ≡ reconcile
    → r.view ≡ some v
    → Settles c s (reconciled s r.defer_finish v) r
unfolding reconciled
reconciled-Settles s r v c e k rv =
    elim (Bool-cases (is_cancel_in_flight s.in_flight && is_none v.order)) [
      | inr stays ↦ by_view v k rv refl (rw stays refl) (inl (rw stays (refl, refl, refl)))
      | inl gone ↦
          let (cancels, no_order) = cancel_gone s c v.order e gone in
          elim (Bool-cases r.defer_finish) [
            | inl late ↦
                by_view v k rv refl (rw (gone, late) refl)
                  (inr (cancels, no_order, rw (gone, late) (refl, refl, refl)))
            | inr now ↦
                by_view v k rv refl (rw (gone, now) refl)
                  (inr (cancels, no_order, rw (gone, now) (refl, refl, refl)))
          ]
    ]

reconcile-Settles :
    (s n : State) (r : Record) (c : Child) (vo : Option View)
    → s.in_flight ≡ some c
    → r.kind ≡ reconcile
    → r.view ≡ vo
    → apply_reconcile s r.defer_finish vo ≡ ok n
    → Settles c s n r
unfolding apply_reconcile
reconcile-Settles s n r c none e k rv h = ground arith
reconcile-Settles s n r c (some v) e k rv h =
    let n-eq = (unless_opt-ok (view_refusal s v.order) (reconciled s r.defer_finish v) h).1 in
    rw n-eq (reconciled-Settles s r v c e k rv)

fill-Waits :
    (s n : State) (of : Option Fill) (c : Child)
    → s.in_flight ≡ some c
    → apply_fill s of ≡ ok n
    → Waits c s n
unfolding apply_fill
fill-Waits s n none c e h = ground arith
fill-Waits s n (some f) c e h =
    let n-eq = (unless-ok (fill_checks s f) (filled_state s f) h).1 in
    rw n-eq (e, refl, refl, refl, refl)

dispatch-Waits :
    (k : Kind) (s n : State) (r : Record) (c : Child)
    → r.kind ≡ k
    → started s ≡ true
    → s.in_flight ≡ some c
    → dispatch k s r ≡ ok n
    → Waits c s n ⊎ Settles c s n r
unfolding dispatch
dispatch-Waits start s n r c k b e h = absurd (start_refused s n r.intent b h)
dispatch-Waits send s n r c k b e h = absurd (send_refused s n r.at_ns r.reason r.child c e h)
dispatch-Waits outcome_of s n r c k b e h = outcome-Waits s n r c r.outcome e k refl (simp e at h)
dispatch-Waits reconcile s n r c k b e h = inr (reconcile-Settles s n r c r.view e k refl h)
dispatch-Waits fill_of s n r c k b e h = inl (fill-Waits s n r.fill c e h)
dispatch-Waits finish s n r c k b e h = absurd (finish_refused s n r.reason c e h)
dispatch-Waits (other_kind x) s n r c k b e h = ground arith

-- While the outcome of a child is not known, every record that is accepted either leaves that child
-- in flight, with the children sent, the working order, the halt and the end as they were; or it
-- settles the child: no child is in flight then, nothing else is sent, and the working order, the halt
-- and the end are those of the view, of the accepted child or cancel, or of the refusal.
pub apply-Waits :
    (s n : State) (r : Record) (c : Child)
    → started s ≡ true
    → s.in_flight ≡ some c
    → apply s r ≡ ok n
    → Waits c s n ⊎ Settles c s n r
apply-Waits s n r c b e h = dispatch-Waits r.kind s n r c refl b e (apply-ok s n r h).1
