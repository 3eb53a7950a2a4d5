-- ===== src/Exec/Executor/Announced.antt =====
-- What is asked of the gateway, and what was journaled before (internal/exec/executor.go).
use fillwire.Prelude.{◌≡◌, some, List, [], ◌∷◌}
use fillwire.Exec.State.{Child, send}
use fillwire.Exec.Executor.{Env, Executor, Event, journaled, asked, sent_out}
use fillwire.Exec.Executor.Commit.{EnvLaws}

-- A child is sent out directly behind the journaled record that sends it.
abbrev pub Sends : Child → List Event → Type 0
Sends c [] = ⊥
Sends c (journaled r ∷ events) = (r.kind ≡ send) × (r.child ≡ some c)
Sends c (asked ∷ events) = ⊥
Sends c (sent_out d ∷ events) = ⊥

-- Each child of the events, newest first, is sent out so.
abbrev pub Announced : List Event → Type 0
Announced [] = Unit
Announced (journaled r ∷ events) = Announced events
Announced (asked ∷ events) = Announced events
Announced (sent_out c ∷ events) = Sends c events × Announced events

module _ {W : Type 0} (env : Env W) (laws : EnvLaws env) where
  abbrev IsAnnounced : Executor → Type 0
  IsAnnounced e = Announced e.trace
