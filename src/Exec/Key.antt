-- ===== src/Exec/Key.antt =====
-- The idempotency keys of internal/exec/machine.go: `fmt.Sprintf("%s:%d", intentID, n)`.
use Prim.Native.String.{String, ◌++◌}
use fillwire.Prelude.Strings.{decimal}
use fillwire.Prelude.{ℕ}

unfoldable pub child_key : String → ℕ → String
unfolding decimal
child_key id n = id ++ (":" ++ decimal n)
