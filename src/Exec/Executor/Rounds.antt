-- ===== src/Exec/Executor/Rounds.antt =====
-- How a round of `Tick` begins (internal/exec/executor.go).
use fillwire.Prelude.{◌≡◌, none, some, arith}
use fillwire.Prelude.Int.{ℤ}
use fillwire.Exec.Decide.{decide}
use fillwire.Exec.Executor.{Env, Executor, ExecError, take_decision, tick_round, inputs_of}

module _ {W : Type 0} (env : Env W) where
  pub tick_round-decides :
      (e : Executor) (w : W) (now : ℤ)
      → e.error ≡ none
      → tick_round env e w now ≡ take_decision env e w now (decide e.state (inputs_of env e w now))
  unfolding tick_round
  tick_round-decides e w now h = ground arith

  pub tick_round-latched :
      (e : Executor) (w : W) (now : ℤ) (x : ExecError)
      → e.error ≡ some x
      → tick_round env e w now ≡ (some (some x), e, w)
  unfolding tick_round
  tick_round-latched e w now x h = ground arith
