-- ===== src/Exec/Decide.antt =====
-- internal/exec/machine.go: `decide`, the executor's only decision point.
use fillwire.Prelude.{
  ◌+◌, String, Bool, false, not, ◌&&◌, ◌||◌, Option, none, some, if◌then◌else◌, length, is_none,
}
use fillwire.Prelude.Int.{ℤ, pos, ltb_ℤ, leb_ℤ, min_ℤ}
use fillwire.Prelude.Word.{add64, sub64, mul64, quot64}
use fillwire.Exec.Side.{is_buy, is_sell}
use fillwire.Exec.Tick.{floor_tick, step_toward}
use fillwire.Exec.Intent.{Time, worse}
use fillwire.Exec.State.{
  Child, Order, Record, State, submit, amend, cancel, send, finish, done_filled, done_cap,
  done_deadline, done_killed, done_stale_book, done_e1_caps, is_empty, started, remaining,
}
use fillwire.Exec.Exposure.{root_of, e1_room, e1_caps_refusal}
use fillwire.Exec.Key.{child_key}

-- `Top`: the touch of the latest book snapshot.
pub record Top : Type 0 where
  pub bid : ℤ
  pub ask : ℤ
  pub at_ns : ℤ
  pub synced : Bool

-- `Config` of executor.go; the durations are in nanoseconds.
pub record Config : Type 0 where
  pub send_enabled : Bool
  pub require_ledger_complete : Bool
  pub step_every : ℤ
  pub stale_after : ℤ

-- `inputs`.
pub record Inputs : Type 0 where
  pub now : ℤ
  pub top : Option Top
  pub cfg : Config
  pub killed : Bool

-- `decision`.
pub data Decision : Type 0 where
  idle query : Decision
  commit : Record → Decision

-- `Time.UnixNano`.
abbrev pub unix_nano : Time → ℤ
unix_nano t = add64 (mul64 t.seconds (pos 1000000000)) (pos t.nanos)

abbrev pub blank_record : Record
blank_record = record {
  kind = finish;
  defer_finish = false;
  at_ns = pos 0;
  intent = none;
  child = none;
  reason = "";
  outcome = none;
  view = none;
  fill = none;
}

abbrev pub finish_with : Inputs → String → Decision
finish_with i reason =
    commit (record blank_record { kind = finish; at_ns = i.now; reason = reason })

-- The key of the next child.
abbrev pub next_key : State → String
next_key s = child_key s.intent.intent_id (length s.sent + 1)

abbrev pub send_child : Inputs → Child → String → Decision
send_child i c reason =
    commit (record blank_record { kind = send; at_ns = i.now; child = some c; reason = reason })

-- `send(Child{Action: ActCancel}, reason)` at the working order.
abbrev pub send_cancel : State → Inputs → Order → String → Decision
send_cancel s i o reason =
    send_child i
      (record {
        action = cancel;
        intent_id = s.intent.intent_id;
        key = next_key s;
        target_key = o.key;
        qty = pos 0;
        price = pos 0;
      })
      reason

abbrev pub send_amend : State → Inputs → Order → ℤ → ℤ → Decision
send_amend s i o q p =
    send_child i
      (record {
        action = amend;
        intent_id = s.intent.intent_id;
        key = next_key s;
        target_key = o.key;
        qty = q;
        price = p;
      })
      "step"

abbrev pub send_submit : State → Inputs → ℤ → ℤ → Decision
send_submit s i q p =
    send_child i
      (record {
        action = submit;
        intent_id = s.intent.intent_id;
        key = next_key s;
        target_key = "";
        qty = q;
        price = p;
      })
      "open"

-- `bookSilentSince`.
unfoldable pub book_silent_since : State → Inputs → ℤ
book_silent_since s i = elim i.top [
  | none ↦ s.last_move_ns
  | some t ↦
      if t.synced && ltb_ℤ (pos 0) t.at_ns && leb_ℤ t.at_ns i.now then t.at_ns else s.last_move_ns
]

-- The reason to close the intent, or the empty text.
unfoldable pub closing_reason : State → Inputs → String
unfolding book_silent_since
closing_reason s i =
    if leb_ℤ s.target s.filled
    then done_filled
    else if i.killed
    then done_killed
    else if leb_ℤ (unix_nano s.intent.expires_at) i.now
    then done_deadline
    else if not (is_none s.order) && ltb_ℤ (book_silent_since s i) (sub64 i.now (pos 30000000000))
    then done_stale_book
    else s.halt

-- `fitNewOrder`: the quantity and the price of a new lineage.
unfoldable pub fit_new_order : State → ℤ → ℤ → ℤ × ℤ
fit_new_order s rest p =
    let (q_room, n_room) = e1_room s "" in
    let q = min_ℤ rest q_room in
    if ltb_ℤ q (pos 1)
    then (pos 0, p)
    else if is_buy s.intent.side
    then (min_ℤ q (quot64 n_room p), p)
    else let q' = if ltb_ℤ n_room (mul64 q s.cap) then quot64 n_room s.cap else q in
      if ltb_ℤ q' (pos 1) then (pos 0, p) else (q', min_ℤ p (floor_tick (quot64 n_room q')))

-- A book that no new submit or amend is priced from.
abbrev pub unusable : Inputs → Top → Bool
unusable i t =
    not t.synced
    || ltb_ℤ i.now t.at_ns
    || ltb_ℤ i.cfg.stale_after (sub64 i.now t.at_ns)
    || ltb_ℤ t.bid (pos 1)
    || ltb_ℤ t.ask (pos 1)

-- The quantity that an amend of the working order may carry.
unfoldable pub amend_qty : State → Order → ℤ
amend_qty s o =
    let rest = remaining s in
    let q = if ltb_ℤ (pos 0) o.qty then min_ℤ rest o.qty else rest in
    min_ℤ q (e1_room s (root_of s.sent o.key)).0

-- The worst price that an amend with that quantity may reach.
unfoldable pub amend_cap : State → Order → ℤ → ℤ
amend_cap s o q =
    if is_buy s.intent.side && ltb_ℤ (pos 0) q
    then min_ℤ s.cap (floor_tick (quot64 (e1_room s (root_of s.sent o.key)).1 q))
    else s.cap

abbrev pub step_child : State → Order → ℤ → ℤ → Child
step_child s o q cp = record {
  action = amend;
  intent_id = "";
  key = "";
  target_key = o.key;
  qty = q;
  price = step_toward s.intent.side o.price cp;
}

-- The step of a working order that has rested long enough and has a book.
unfoldable pub amend_order : State → Inputs → Order → Option Top → Decision
amend_order s i o none = idle
amend_order s i o (some t) =
    let q = amend_qty s o in
    let cp = amend_cap s o q in
    if unusable i t then idle else send_amend s i o q (step_toward s.intent.side o.price cp)

unfoldable pub step_order : State → Inputs → Order → Decision
unfolding amend_qty amend_cap amend_order
step_order s i o =
    let q = amend_qty s o in
    let cp = amend_cap s o q in
    if ltb_ℤ (sub64 i.now s.last_move_ns) i.cfg.step_every
    then idle
    else if ltb_ℤ q (pos 1) || not (worse s.intent cp o.price)
    then send_cancel s i o done_cap
    else if not (is_none (e1_caps_refusal s (step_child s o q cp)))
    then send_cancel s i o done_e1_caps
    else amend_order s i o i.top

-- The price of a new order: the touch on its own side, no worse than the cap.
unfoldable pub opening_price : State → Top → ℤ
opening_price s t =
    let p = if is_sell s.intent.side then t.ask else t.bid in
    if worse s.intent p s.cap then s.cap else p

-- A new order, when none works.
unfoldable pub open_order : State → Inputs → Option Top → Decision
unfolding opening_price fit_new_order
open_order s i none = idle
open_order s i (some t) =
    let (q, p) = fit_new_order s (remaining s) (opening_price s t) in
    if unusable i t
    then idle
    else if ltb_ℤ q (pos 1)
    then finish_with i done_e1_caps
    else send_submit s i q p

-- What follows once sending is enabled.
unfoldable pub decide_order : State → Inputs → Option Order → Decision
unfolding closing_reason step_order open_order
decide_order s i none =
    let reason = closing_reason s i in
    if not (is_empty reason)
    then finish_with i reason
    else if ltb_ℤ (remaining s) (pos 1)
    then idle
    else open_order s i i.top
decide_order s i (some o) =
    let reason = closing_reason s i in
    if not (is_empty reason)
    then send_cancel s i o reason
    else if ltb_ℤ (remaining s) (pos 1)
    then idle
    else step_order s i o

-- `decide`.
unfoldable pub decide : State → Inputs → Decision
unfolding decide_order
decide s i =
    if not (started s) || not (is_empty s.done)
    then idle
    else if not (is_none s.in_flight)
    then query
    else if leb_ℤ s.target s.filled && is_none s.order
    then finish_with i done_filled
    else if not i.cfg.send_enabled
    then idle
    else decide_order s i s.order
