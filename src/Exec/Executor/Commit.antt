-- ===== src/Exec/Executor/Commit.antt =====
-- How a commit of internal/exec/executor.go ends, and what it leaves in the journal.
use fillwire.Prelude.{
  ℕ, ◌≤◌, ◌≡◌, refl, inl, inr, true, none, some, ◌∷◌, ◌++◌, length, take, ok, err, arith, ap,
  Bool-cases, Option-cases, Result-cases,
}
use fillwire.Exec.State.{State, Record}
use fillwire.Exec.Machine.{apply, TransitionError}
use fillwire.Exec.Journal.{Bytes, next_seq, line_bytes, append}
use fillwire.Exec.Journal.Replay.{CodecLaws}
use fillwire.Exec.Executor.{
  Env, Executor, journaled, ExecError, halted, Answer, caps_check, write_record, commit_record,
  caps_refused, bad_transition, TransitionError, Refusal, write_line,
}
use fillwire.Exec.Exposure.{Refusal}

-- What the code relies on in its environment: the JSON codec, and a write that reports success has
-- written every byte.
pub record EnvLaws {W : Type 0} (env : Env W) : Type 0 where
  pub codec_laws : CodecLaws env.codec
  pub whole_write :
      (w : W) (bs : Bytes)
      → (env.disk w bs).0.write_ok ≡ true
      → length bs ≤ (env.disk w bs).0.written

module _ {W : Type 0} (env : Env W) where
  -- How a commit ends: nothing changed; the record was written and applied; or the write failed
  -- somewhere in the line and the executor halted with its state as it was.
  pub data CommitCase (e : Executor) (r : Record) (a : Answer env) : Type 0 where
    unchanged : (x : ExecError) → a.0 ≡ some x → a.1 ≡ e → CommitCase e r a
    applied :
        (next : State) (line : Bytes) (written : ℕ)
        → line_bytes env.codec e.journal.seq r next ≡ some line
        → e.error ≡ none
        → caps_check e.state r.kind r.child ≡ none
        → apply e.state r ≡ ok next
        → length line ≤ written
        → a.0 ≡ none
        → a.1 ≡ record e {
          journal = record {
            file = e.journal.file ++ take written line;
            seq = next_seq e.journal.seq;
          };
          state = next;
          trace = journaled r ∷ e.trace;
        }
        → CommitCase e r a
    torn :
        (next : State) (line : Bytes) (written : ℕ)
        → line_bytes env.codec e.journal.seq r next ≡ some line
        → e.error ≡ none
        → apply e.state r ≡ ok next
        → a.0 ≡ some halted
        → a.1 ≡ record e {
          journal = record { file = e.journal.file ++ take written line; seq = e.journal.seq };
          error = some halted;
        }
        → CommitCase e r a
    not_encoded : a.0 ≡ some halted → a.1 ≡ record e { error = some halted } → CommitCase e r a

  module _ (laws : EnvLaws env) where
    write_line-cases :
        (e : Executor) (w : W) (r : Record) (next : State) (line : Bytes)
        → line_bytes env.codec e.journal.seq r next ≡ some line
        → e.error ≡ none
        → caps_check e.state r.kind r.child ≡ none
        → apply e.state r ≡ ok next
        → CommitCase e r (write_line env e w r next line)
    unfolding write_line append
    write_line-cases e w r next line eq ne nc h =
        let d = (env.disk w line).0 in
        elim (Bool-cases d.write_ok) [
          | inr failed ↦ rw (failed, write_line) (torn next line d.written eq ne h refl refl)
          | inl wrote ↦ elim (Bool-cases d.sync_ok) [
            | inr failed ↦
                rw (wrote, write_line)
                  (rw (failed, write_line) (torn next line d.written eq ne h refl refl))
            | inl synced ↦
                rw (wrote, write_line)
                  (rw (synced, write_line)
                    (applied next line d.written eq ne nc h (laws.whole_write w line wrote) refl
                      refl))
          ]
        ]

    write_record-cases :
        (e : Executor) (w : W) (r : Record) (next : State)
        → e.error ≡ none
        → caps_check e.state r.kind r.child ≡ none
        → apply e.state r ≡ ok next
        → CommitCase e r (write_record env e w r next)
    unfolding write_record
    write_record-cases e w r next ne nc h =
        elim (Option-cases (line_bytes env.codec e.journal.seq r next)) [
          | inl eq ↦ rw (eq, write_record) (not_encoded refl refl)
          | inr (line, eq) ↦ rw (eq, write_record) (write_line-cases e w r next line eq ne nc h)
        ]

    commit_record-write :
        (e : Executor) (w : W) (r : Record) (next : State)
        → e.error ≡ none
        → caps_check e.state r.kind r.child ≡ none
        → apply e.state r ≡ ok next
        → commit_record env e w r ≡ write_record env e w r next
    unfolding commit_record
    commit_record-write e w r next ne nc h = ground arith

    commit_record-refused :
        (e : Executor) (w : W) (r : Record) (x : TransitionError)
        → e.error ≡ none
        → caps_check e.state r.kind r.child ≡ none
        → apply e.state r ≡ err x
        → commit_record env e w r ≡ (some (bad_transition x), e, w)
    unfolding commit_record
    commit_record-refused e w r x ne nc h = ground arith

    -- A latched error stops every commit.
    pub commit_record-latched :
        (e : Executor) (w : W) (r : Record) (x : ExecError)
        → e.error ≡ some x
        → commit_record env e w r ≡ (some x, e, w)
    unfolding commit_record
    commit_record-latched e w r x h = ground arith

    commit_record-caps :
        (e : Executor) (w : W) (r : Record) (why : Refusal)
        → e.error ≡ none
        → caps_check e.state r.kind r.child ≡ some why
        → commit_record env e w r ≡ (some (caps_refused why), e, w)
    unfolding commit_record
    commit_record-caps e w r why ne nc = ground arith

    pub commit_record-cases :
        (e : Executor) (w : W) (r : Record) → CommitCase e r (commit_record env e w r)
    unfolding commit_record
    commit_record-cases e w r = elim (Option-cases e.error) [
      | inr (x, latched) ↦ rw (commit_record-latched e w r x latched) (unchanged x refl refl)
      | inl ne ↦ elim (Option-cases (caps_check e.state r.kind r.child)) [
        | inr (why, caps) ↦
            rw (commit_record-caps e w r why ne caps) (unchanged (caps_refused why) refl refl)
        | inl nc ↦ elim (Result-cases (apply e.state r)) [
          | inr (x, bad) ↦
              rw (commit_record-refused e w r x ne nc bad) (unchanged (bad_transition x) refl refl)
          | inl (next, h) ↦
              rw (commit_record-write e w r next ne nc h) (write_record-cases e w r next ne nc h)
        ]
      ]
    ]

    -- A commit that returns no error has journaled its record last.
    pub commit_record-trace :
        (e : Executor) (w : W) (r : Record)
        → (commit_record env e w r).0 ≡ none
        → (commit_record env e w r).1.trace ≡ journaled r ∷ e.trace
    commit_record-trace e w r h = of_case (commit_record-cases e w r) h
      where
        of_case :
            {a : Answer env} → CommitCase e r a → a.0 ≡ none → a.1.trace ≡ journaled r ∷ e.trace
        of_case (unchanged x failed eq) h = cc
        of_case (applied next line n sl ne nc good whole fine eq) h =
            ap (λ (x : Executor). x.trace) eq
        of_case (torn next line n sl ne good failed eq) h = cc
        of_case (not_encoded failed eq) h = cc
