-- ===== src/Exec/Executor/Durable.antt =====
-- The journal and the state in memory (internal/exec/executor.go).
use fillwire.Prelude.{◌≡◌, refl, sym, ◌∙◌, ◌⊎◌, inl, inr, Option, none, some, List, take-more}
use fillwire.Exec.State.{State, Record}
use fillwire.Exec.Journal.Replay.{ReplaysTo, replay-append}
use fillwire.Exec.Executor.{Env, Executor, ExecError, halted, commit_record, on_book}
use fillwire.Exec.Executor.Commit.{
  EnvLaws, CommitCase, unchanged, applied, torn, commit_record-cases, not_encoded,
}
use fillwire.Exec.Executor.Calls.{Op, run}
use fillwire.Exec.Executor.Keeps.{run-keeps}

none≢halted : ◌≡◌ {A = Option ExecError} none (some halted) → ⊥
none≢halted h = cc

module _ {W : Type 0} (env : Env W) (laws : EnvLaws env) (z : State) where
  -- The journal replays, to its end, to the state and the sequence in memory.
  abbrev pub Synced : Executor → Type 0
  Synced e = ReplaysTo env.codec z e.journal.file e.state e.journal.seq

  -- That holds, or a journal write has failed and the executor has stopped for good.
  abbrev pub Journaled : Executor → Type 0
  Journaled e = Synced e ⊎ (e.error ≡ some halted)

  commit_record-Journaled :
      (e : Executor) (w : W) (r : Record) → Journaled e → Journaled (commit_record env e w r).1
  commit_record-Journaled e w r h = from_case (commit_record-cases env laws e w r) h
    where
      from_case :
          CommitCase env e r (commit_record env e w r)
          → Journaled e
          → Journaled (commit_record env e w r).1
      from_case (unchanged x a eq) j = rw eq j
      from_case (applied next line k some_line ne nc ok_next whole a eq) (inl j) = rw eq (
          inl (
            rw (take-more k line whole) (
              replay-append env.codec laws.codec_laws z e.state e.journal.seq e.journal.file j r
                next line ok_next some_line)))
      from_case (applied next line k some_line ne nc ok_next whole a eq) (inr stopped) =
          absurd (none≢halted (sym ne ∙ stopped))
      from_case (not_encoded a eq) j = rw eq (inr refl)
      from_case (torn next line k some_line ne ok_next a eq) j = rw eq (inr refl)

  by_latch :
      (e : Executor) (x : ExecError)
      → e.error ≡ none
      → Journaled e
      → Journaled (record e { error = some x })
  by_latch e x ne (inl synced) = inl synced
  by_latch e x ne (inr stopped) = absurd (none≢halted (sym ne ∙ stopped))

  -- Whatever calls run, in any order, on an executor whose journal replays to its state (a start, a
  -- book, a fill, a ledger fill bound to its broker order, a report on the ledger, a tick): the journal
  -- still replays, to its end, to the state and the sequence in memory, or a journal write has failed
  -- and the executor has latched that error.
  pub run-Journaled :
      (ops : List Op) (e : Executor) (w : W) → Journaled e → Journaled (run env ops e w).0
  unfolding on_book
  run-Journaled =
      run-keeps env laws Journaled commit_record-Journaled (λ e h. h)
        (λ e c r before k rc last h. h) by_latch (λ e b h. h) (λ e t h. h)
