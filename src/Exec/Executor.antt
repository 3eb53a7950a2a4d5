-- ===== src/Exec/Executor.antt =====
-- internal/exec/executor.go: the executor, which journals every transition before it acts.
-- The gateway, the disk and the kill switch are the environment: a state `W` with an answer for
-- each call. `trace` is a ghost: what was journaled, and what was asked of the gateway, newest
-- first.
pub mod Commit
mod Rounds
pub mod Keeps
pub mod Announced
pub mod Calls
pub mod Durable
use Prim.Native.String.{◌++◌ as str_append}
use fillwire.Prelude.{
  ℕ, zero, suc, String, Bool, true, false, not, ◌&&◌, Option, none, some, List, [], ◌∷◌,
  if◌then◌else◌, str_eq, is_none, Result, ok, err,
}
use fillwire.Prelude.Int.{ℤ, pos, ltb_ℤ}
use fillwire.Exec.Intent.{Intent}
use fillwire.Exec.State.{
  Child, Outcome, View, Fill, Kind, Record, State, uncertain, start, send, outcome_of, reconcile,
  fill_of, finish, started, overfill, sent_key, find_fill, is_opening,
}
use fillwire.Exec.Exposure.{Refusal, e1_caps_refusal}
use fillwire.Exec.Machine.{TransitionError, apply}
use fillwire.Exec.Decide.{Top, Config, Inputs, idle, query, commit, blank_record, decide, Decision}
use fillwire.Exec.Journal.{Codec, Disk, Journal, Bytes, line_bytes, append}

-- An error that an operation of the executor returns.
pub data ExecError : Type 0 where
  bad_transition : TransitionError → ExecError
  caps_refused : Refusal → ExecError
  reconcile_failed : String → ExecError
  attribution_failed : ExecError
  halted incomplete overfilled : ExecError

-- What happened, for statements about the order of it.
pub data Event : Type 0 where
  journaled : Record → Event
  asked : Event
  sent_out : Child → Event

pub record Executor : Type 0 where
  pub cfg : Config
  pub journal : Journal
  pub state : State
  pub top : Option Top
  pub error : Option ExecError
  pub ledger_complete : Bool
  pub trace : List Event

-- The gateway, the disk and the kill switch.
pub record Env (W : Type 0) : Type 0 where
  pub codec : Codec
  pub gateway_send : W → Child → Result String Outcome × W
  pub gateway_query : W → String → Result String View × W
  -- The write of some bytes, and the sync behind it.
  pub disk : W → Bytes → Disk × W
  pub killed : W → Bool
  -- The `%q` form of a text.
  pub quoted : String → String

-- `New`.
abbrev pub new : Config → Journal → State → Executor
new cfg j s = record {
  cfg = cfg;
  journal = j;
  state = s;
  top = none;
  error = none;
  ledger_complete = false;
  trace = [];
}

-- `OnBook`.
unfoldable pub on_book : Executor → Top → Executor
on_book e t = record e { top = some t }

-- `SetLedgerComplete`.
unfoldable pub set_ledger_complete : Executor → Bool → Executor
set_ledger_complete e complete = record e { ledger_complete = complete }

-- Why `commit` refuses a child before it applies the record.
abbrev pub caps_check : State → Kind → Option Child → Option Refusal
caps_check s send (some c) = if is_opening c.action then e1_caps_refusal s c else none
caps_check s _ _ = none

-- The records that the executor commits.
abbrev pub start_record : Intent → ℤ → Record
start_record i now = record blank_record { kind = start; at_ns = now; intent = some i }

abbrev pub fill_record : Fill → Record
fill_record f = record blank_record { kind = fill_of; at_ns = f.at_ns; fill = some f }

abbrev pub outcome_record : Bool → Outcome → ℤ → Record
outcome_record deferred o now = record blank_record {
  kind = outcome_of;
  at_ns = now;
  outcome = some o;
  defer_finish = deferred;
}

abbrev pub view_record : Bool → View → ℤ → Record
view_record deferred v now = record blank_record {
  kind = reconcile;
  at_ns = now;
  view = some v;
  defer_finish = deferred;
}

-- `maxStepsPerTick`.
abbrev pub max_steps_per_tick : ℕ
max_steps_per_tick = 8

abbrev pub is_finish : Kind → Bool
is_finish finish = true
is_finish _ = false

module _ {W : Type 0} (env : Env W) where
  abbrev pub Answer : Type 0
  Answer = Option ExecError × Executor × W

  -- The journal write of `commit`, once the record has been applied and its line encoded.
  unfoldable pub write_line : Executor → W → Record → State → Bytes → Answer
  unfolding append
  write_line e w r next line =
      let (d, w') = env.disk w line in
      let (j, done) = append d e.journal line in
      if done
      then (none, record e { journal = j; state = next; trace = journaled r ∷ e.trace }, w')
      else (some halted, record e { journal = j; error = some halted }, w')

  -- The same before its line is encoded.
  unfoldable pub write_record : Executor → W → Record → State → Answer
  unfolding write_line line_bytes
  write_record e w r next = elim (line_bytes env.codec e.journal.seq r next) [
    | none ↦ (some halted, record e { error = some halted }, w)
    | some line ↦ write_line e w r next line
  ]

  -- `commit`.
  unfoldable pub commit_record : Executor → W → Record → Answer
  unfolding write_record
  commit_record e w r = elim e.error [
    | some x ↦ (some x, e, w)
    | none ↦ elim (caps_check e.state r.kind r.child) [
      | some why ↦ (some (caps_refused why), e, w)
      | none ↦ elim (apply e.state r) [
        | err x ↦ (some (bad_transition x), e, w)
        | ok next ↦ write_record e w r next
      ]
    ]
  ]

  -- `Start`.
  unfoldable pub start_intent : Executor → W → Intent → ℤ → Answer
  start_intent e w i now = commit_record e w (start_record i now)

  -- The end of `OnFill`.
  abbrev pub after_fill : Answer → Answer
  after_fill (some x, e, w) = (some x, e, w)
  after_fill (none, e, w) =
      (if ltb_ℤ (pos 0) (overfill e.state) then some overfilled else none, e, w)

  -- `OnFill`.
  unfoldable pub on_fill : Executor → W → Fill → Answer
  on_fill e w f =
      if not (started e.state)
      then (none, e, w)
      else if not (is_none (find_fill f.fill_id e.state.fills))
      then (none, e, w)
      else if is_none (sent_key e.state f.key)
      then (none, e, w)
      else after_fill (commit_record e w (fill_record f))

  -- The outcome that `send` journals for the gateway's answer.
  unfoldable pub outcome_for : Child → Result String Outcome → Outcome
  outcome_for c (err x) = record {
    key = c.key;
    status = uncertain;
    reason = str_append "transport: " x;
    broker_order_id = "";
  }
  outcome_for c (ok o) = if str_eq o.key c.key then o else record {
    key = c.key;
    status = uncertain;
    reason = str_append "answer for key " (env.quoted o.key);
    broker_order_id = "";
  }

  -- `send`.
  unfoldable pub send_out : Executor → W → Child → ℤ → Answer
  send_out e w c now =
      let (answer, w') = env.gateway_send w c in
      commit_record (record e { trace = sent_out c ∷ e.trace }) w'
        (outcome_record e.cfg.require_ledger_complete (outcome_for c answer) now)

  -- How a round of `Tick` ends: with its next round, or with what `Tick` returns.
  abbrev pub Round : Type 0
  Round = Option (Option ExecError) × Executor × W

  -- Goes on where the call returned nil.
  abbrev pub go_on : Answer → Round
  go_on (some x, e, w) = (some (some x), e, w)
  go_on (none, e, w) = (none, e, w)

  -- `case d.query`.
  unfoldable pub reconcile_round : Executor → W → ℤ → Round
  reconcile_round e w now =
      let (answer, w') = env.gateway_query w e.state.intent.intent_id in
      let e' = record e { trace = asked ∷ e.trace } in
      elim answer [
        | err x ↦ (some (some (reconcile_failed x)), e', w')
        | ok v ↦ go_on (commit_record e' w' (view_record e.cfg.require_ledger_complete v now))
      ]

  -- After a child was sent: a run that needs a complete ledger ends its tick.
  abbrev pub after_send : Answer → Round
  after_send (some x, e, w) = (some (some x), e, w)
  after_send (none, e, w) =
      if e.cfg.require_ledger_complete
      then (some none, record e { ledger_complete = false }, w)
      else (none, e, w)

  -- What follows a record that was committed.
  abbrev pub follow_up : Option Child → Kind → ℤ → Answer → Round
  follow_up child kind now (some x, e, w) = (some (some x), e, w)
  follow_up (some c) send now (none, e, w) = after_send (send_out e w c now)
  follow_up child kind now (none, e, w) = (none, e, w)

  -- `case d.rec != nil`.
  unfoldable pub commit_round : Executor → W → ℤ → Record → Round
  commit_round e w now r =
      if is_finish r.kind && e.cfg.require_ledger_complete && not e.ledger_complete
      then (some (some incomplete), record e { error = some incomplete }, w)
      else follow_up r.child r.kind now (commit_record e w r)

  abbrev pub inputs_of : Executor → W → ℤ → Inputs
  inputs_of e w now = record { now = now; top = e.top; cfg = e.cfg; killed = env.killed w }

  -- The `switch` on a decision in `Tick`.
  unfoldable pub take_decision : Executor → W → ℤ → Decision → Round
  take_decision e w now idle = (some none, e, w)
  take_decision e w now query = reconcile_round e w now
  take_decision e w now (commit r) = commit_round e w now r

  -- One round of the loop in `Tick`.
  unfoldable pub tick_round : Executor → W → ℤ → Round
  tick_round e w now = elim e.error [
    | some x ↦ (some (some x), e, w)
    | none ↦ take_decision e w now (decide e.state (inputs_of e w now))
  ]

  -- The loop of `Tick` for the rounds left.
  unfoldable pub tick_rounds : ℕ → Executor → W → ℤ → Answer
  tick_rounds zero e w now = (none, e, w)
  tick_rounds (suc n) e w now =
      let (next, e', w') = tick_round e w now in
      elim next [ some result ↦ (result, e', w') | none ↦ tick_rounds n e' w' now ]

  -- `Tick`.
  unfoldable pub tick : Executor → W → ℤ → Answer
  tick e w now = tick_rounds max_steps_per_tick e w now
