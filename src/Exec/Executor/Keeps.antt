-- ===== src/Exec/Executor/Keeps.antt =====
-- Invariants of the executor from those of a commit (internal/exec/executor.go).
use fillwire.Prelude.{
  refl, ℕ, zero, suc, ◌≡◌, Bool, true, false, not, ◌&&◌, Option, none, some, ◌∷◌, is_none,
  Bool-cases, Option-cases, Result-cases, inr, inl, if◌then◌else◌, String, str_eq, List, [],
}
use fillwire.Prelude.Int.{ℤ}
use fillwire.Exec.State.{Child, Fill, Kind, Record, send, started, sent_key, find_fill, is_empty}
use fillwire.Exec.Intent.{Intent}
use fillwire.Exec.Decide.{Decision, Top}
use fillwire.Exec.Executor.{
  Env, Executor, Event, incomplete, Answer, commit_record, start_intent, start_record, on_fill,
  fill_record, after_fill, send_out, outcome_for, outcome_record, go_on, reconcile_round,
  view_record, after_send, follow_up, commit_round, is_finish, tick_round, tick_rounds, tick,
  max_steps_per_tick, asked, sent_out, take_decision, Round, ExecError, String, attribution_failed,
  str_eq, on_book, set_ledger_complete, journaled,
}
use fillwire.Exec.Executor.Calls.{
  Op, begin_intent, book, fill, ledger_fill, poll, tick_now, run_op, run,
}
use fillwire.Exec.Executor.Commit.{EnvLaws, commit_record-trace}
use fillwire.Exec.Executor.Rounds.{tick_round-decides, tick_round-latched}
use fillwire.Exec.Ledger.{
  record_fill, on_ledger_fill, bind_fill, fill_eq, is_incomplete, broker_keys, find_identity,
  order_identity,
}

module _ {W : Type 0} (env : Env W) (laws : EnvLaws env) (P : Executor → Type 0)
    (by_commit : (e : Executor) (w : W) (r : Record) → P e → P (commit_record env e w r).1)
    (by_asked : (e : Executor) → P e → P (record e { trace = asked ∷ e.trace }))
    (by_send : (e : Executor) (c : Child) (r : Record) (before : List Event)
      → r.kind ≡ send
      → r.child ≡ some c
      → e.trace ≡ journaled r ∷ before
      → P e
      → P (record e { trace = sent_out c ∷ e.trace }))
    (by_latch : (e : Executor) (x : ExecError)
      → e.error ≡ none
      → P e
      → P (record e { error = some x }))
    (by_poll : (e : Executor) (b : Bool) → P e → P (record e { ledger_complete = b })) where
  start_intent-keeps :
      (e : Executor) (w : W) (i : Intent) (now : ℤ) → P e → P (start_intent env e w i now).1
  unfolding start_intent
  start_intent-keeps e w i now h = by_commit e w (start_record i now) h

  after_fill-keeps : (a : Answer env) → P a.1 → P (after_fill env a).1
  after_fill-keeps (some x, e, w) h = h
  after_fill-keeps (none, e, w) h = h

  on_fill-keeps : (e : Executor) (w : W) (f : Fill) → P e → P (on_fill env e w f).1
  unfolding on_fill
  on_fill-keeps e w f h = elim (Bool-cases (not (started e.state))) [
    | inl a ↦ rw a h
    | inr a ↦ elim (Bool-cases (not (is_none (find_fill f.fill_id e.state.fills)))) [
      | inl b ↦ rw (a, b) h
      | inr b ↦ elim (Bool-cases (is_none (sent_key e.state f.key))) [
        | inl c ↦ rw (a, b, c) h
        | inr c ↦
            rw (a, b, c)
              (after_fill-keeps (commit_record env e w (fill_record f))
                (by_commit e w (fill_record f) h))
      ]
    ]
  ]

  record_fill-keeps :
      (e : Executor) (w : W) (f : Fill) → e.error ≡ none → P e → P (record_fill env e w f).1
  unfolding record_fill
  record_fill-keeps e w f ne h = elim (Option-cases (find_fill f.fill_id e.state.fills)) [
    | inl new ↦ rw (new, record_fill) (on_fill-keeps e w f h)
    | inr (previous, known) ↦ elim (Bool-cases (fill_eq previous f)) [
      | inl same ↦ rw (known, record_fill) (rw same (on_fill-keeps e w f h))
      | inr other ↦ rw (known, record_fill) (rw other (by_latch e attribution_failed ne h))
    ]
  ]

  bind_fill-keeps :
      (e : Executor) (w : W) (number : String) (f : Fill)
      → e.error ≡ none
      → P e
      → P (bind_fill env e w number f).1
  unfolding bind_fill
  bind_fill-keeps e w number f ne h =
      let failed = by_latch e attribution_failed ne h in
      let scan = broker_keys env.codec e.journal in
      elim (Option-cases scan.error) [
        | inr (x, bad) ↦ rw (bad, bind_fill) failed
        | inl fine ↦
            elim (Option-cases (find_identity (order_identity number f.at_ns) scan.value.keys)) [
              | inl absent ↦ rw (fine, bind_fill) (rw (absent, bind_fill) failed)
              | inr (key, found) ↦
                  elim (Bool-cases (not (is_empty f.key) && not (str_eq f.key key))) [
                    | inl differs ↦ rw (fine, bind_fill) (rw (found, bind_fill) (rw differs failed))
                    | inr agrees ↦
                        rw (fine, bind_fill)
                          (rw (found, bind_fill)
                            (rw agrees (record_fill-keeps e w (record f { key = key }) ne h)))
                  ]
            ]
      ]

  on_ledger_fill-keeps :
      (e : Executor) (w : W) (number : String) (f : Fill)
      → P e
      → P (on_ledger_fill env e w number f).1
  unfolding on_ledger_fill
  on_ledger_fill-keeps e w number f h = elim (Option-cases e.error) [
    | inr (x, latched) ↦ rw (latched, on_ledger_fill) h
    | inl ne ↦ elim (Bool-cases (is_incomplete e.state number f)) [
      | inl short ↦ rw (ne, on_ledger_fill) (rw short (by_latch e attribution_failed ne h))
      | inr enough ↦ rw (ne, on_ledger_fill) (rw enough (bind_fill-keeps e w number f ne h))
    ]
  ]

  send_out-keeps :
      (e : Executor) (w : W) (c : Child) (now : ℤ) (r : Record) (before : List Event)
      → r.kind ≡ send
      → r.child ≡ some c
      → e.trace ≡ journaled r ∷ before
      → P e
      → P (send_out env e w c now).1
  unfolding send_out
  send_out-keeps e w c now r before k rc last h =
      let (answer, w') = env.gateway_send w c in
      by_commit (record e { trace = sent_out c ∷ e.trace }) w'
        (outcome_record e.cfg.require_ledger_complete (outcome_for env c answer) now)
        (by_send e c r before k rc last h)

  go_on-keeps : (a : Answer env) → P a.1 → P (go_on env a).1
  go_on-keeps (some x, e, w) h = h
  go_on-keeps (none, e, w) h = h

  reconcile_round-keeps : (e : Executor) (w : W) (now : ℤ) → P e → P (reconcile_round env e w now).1
  unfolding reconcile_round
  reconcile_round-keeps e w now h =
      let e' : Executor = record e { trace = asked ∷ e.trace } in
      let w' = (env.gateway_query w e.state.intent.intent_id).1 in
      elim (Result-cases (env.gateway_query w e.state.intent.intent_id).0) [
        | inl (v, answered) ↦
            rw (answered, reconcile_round)
              (go_on-keeps
                (commit_record env e' w' (view_record e.cfg.require_ledger_complete v now))
                (by_commit e' w' (view_record e.cfg.require_ledger_complete v now) (by_asked e h)))
        | inr (x, failed) ↦ rw (failed, reconcile_round) (by_asked e h)
      ]

  either : (b : Bool) (x y : Round env) → P x.1 → P y.1 → P (if b then x else y).1
  either true x y h k = h
  either false x y h k = k

  after_send-keeps : (a : Answer env) → P a.1 → P (after_send env a).1
  after_send-keeps (some x, e, w) h = h
  after_send-keeps (none, e, w) h =
      either e.cfg.require_ledger_complete (some none, record e { ledger_complete = false }, w)
        (none, e, w) (by_poll e false h) h

  follow_up-keeps :
      (child : Option Child) (kind : Kind) (now : ℤ) (r : Record) (before : List Event)
      (a : Answer env)
      → r.child ≡ child
      → r.kind ≡ kind
      → (a.0 ≡ none → a.1.trace ≡ journaled r ∷ before)
      → P a.1
      → P (follow_up env child kind now a).1
  follow_up-keeps child kind now r before (some x, e, w) rc k last h = h
  follow_up-keeps (some c) send now r before (none, e, w) rc k last h =
      after_send-keeps (send_out env e w c now)
        (send_out-keeps e w c now r before k rc (last refl) h)
  follow_up-keeps none send now r before (none, e, w) rc k last h = h
  follow_up-keeps (some c) _ now r before (none, e, w) rc k last h = h
  follow_up-keeps none _ now r before (none, e, w) rc k last h = h

  commit_round-keeps :
      (e : Executor) (w : W) (now : ℤ) (r : Record)
      → e.error ≡ none
      → P e
      → P (commit_round env e w now r).1
  unfolding commit_round
  commit_round-keeps e w now r ne h =
      elim (Bool-cases
        (is_finish r.kind && e.cfg.require_ledger_complete && not e.ledger_complete)) [
          | inl b ↦ rw b (by_latch e incomplete ne h)
          | inr b ↦ rw b (
              follow_up-keeps r.child r.kind now r e.trace (commit_record env e w r) refl refl
                (commit_record-trace env laws e w r) (by_commit e w r h))
        ]

  of_decision :
      (e : Executor) (w : W) (now : ℤ) (d : Decision)
      → e.error ≡ none
      → P e
      → P (take_decision env e w now d).1
  unfolding take_decision
  of_decision e w now Decision.idle ne h = h
  of_decision e w now Decision.query ne h = reconcile_round-keeps e w now h
  of_decision e w now (Decision.commit r) ne h = commit_round-keeps e w now r ne h

  tick_round-keeps : (e : Executor) (w : W) (now : ℤ) → P e → P (tick_round env e w now).1
  unfolding tick_round
  tick_round-keeps e w now h = elim (Option-cases e.error) [
    | inl ne ↦ rw (tick_round-decides env e w now ne) (of_decision e w now _ ne h)
    | inr (x, latched) ↦ rw (tick_round-latched env e w now x latched) h
  ]

  tick_rounds-keeps :
      (n : ℕ) (e : Executor) (w : W) (now : ℤ) → P e → P (tick_rounds env n e w now).1
  unfolding tick_rounds
  tick_rounds-keeps zero e w now h = h
  tick_rounds-keeps (suc n) e w now h =
      let round = tick_round env e w now in
      let kept = tick_round-keeps e w now h in
      elim (Option-cases round.0) [
        | inr (result, ended) ↦ rw (ended, tick_rounds) kept
        | inl more ↦ rw (more, tick_rounds) (tick_rounds-keeps n round.1 round.2 now kept)
      ]

  tick-keeps : (e : Executor) (w : W) (now : ℤ) → P e → P (tick env e w now).1
  unfolding tick
  tick-keeps e w now h = tick_rounds-keeps max_steps_per_tick e w now h

  run_op-keeps :
      (o : Op) (e : Executor) (w : W)
      → ((t : Top) → P e → P (on_book e t))
      → P e
      → P (run_op env o e w).1
  unfolding run_op set_ledger_complete
  run_op-keeps (begin_intent i now) e w by_book h = start_intent-keeps e w i now h
  run_op-keeps (book t) e w by_book h = by_book t h
  run_op-keeps (fill f) e w by_book h = on_fill-keeps e w f h
  run_op-keeps (ledger_fill number f) e w by_book h = on_ledger_fill-keeps e w number f h
  run_op-keeps (poll b) e w by_book h = by_poll e b h
  run_op-keeps (tick_now now) e w by_book h = tick-keeps e w now h

  -- What every call keeps, a run of calls keeps.
  pub run-keeps :
      (by_book : (e : Executor) (t : Top) → P e → P (on_book e t)) (ops : List Op) (e : Executor)
      (w : W)
      → P e
      → P (run env ops e w).0
  unfolding run
  run-keeps by_book [] e w h = h
  run-keeps by_book (o ∷ ops) e w h =
      let (x, e', w') = run_op env o e w in
      run-keeps by_book ops e' w' (run_op-keeps o e w (by_book e) h)
