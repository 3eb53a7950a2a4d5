-- ===== src/Exec/Executor/Calls.antt =====
-- The calls of an executor (internal/exec/executor.go; ledger.go, OnLedgerFill).
use fillwire.Prelude.{String, Bool, List, [], ◌∷◌, none}
use fillwire.Prelude.Int.{ℤ}
use fillwire.Exec.State.{Fill}
use fillwire.Exec.Intent.{Intent}
use fillwire.Exec.Decide.{Top}
use fillwire.Exec.Executor.{
  Env, Executor, Answer, start_intent, on_book, on_fill, set_ledger_complete, tick,
}
use fillwire.Exec.Ledger.{on_ledger_fill}

-- The calls that a runner makes of the executor.
pub data Op : Type 0 where
  begin_intent : Intent → ℤ → Op
  book : Top → Op
  fill : Fill → Op
  ledger_fill : String → Fill → Op
  poll : Bool → Op
  tick_now : ℤ → Op

module _ {W : Type 0} (env : Env W) where
  unfoldable pub run_op : Op → Executor → W → Answer env
  run_op (begin_intent i now) e w = start_intent env e w i now
  run_op (book t) e w = (none, on_book e t, w)
  run_op (fill f) e w = on_fill env e w f
  run_op (ledger_fill number f) e w = on_ledger_fill env e w number f
  run_op (poll b) e w = (none, set_ledger_complete e b, w)
  run_op (tick_now now) e w = tick env e w now

  -- The calls in order; a runner that stops at an error makes fewer of them.
  unfoldable pub run : List Op → Executor → W → Executor × W
  run [] e w = (e, w)
  run (o ∷ ops) e w = let (x, e', w') = run_op o e w in run ops e' w'
