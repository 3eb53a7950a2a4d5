-- ===== src/Exec/Journal/Valid.antt =====
-- The invariant over a replay (internal/exec/journal.go, machine.go).
use fillwire.Prelude.{
  ℕ, zero, suc, ◌+◌, ◌≡◌, ◌⊎◌, inl, inr, false, some, length, ok, arith, Option-cases, Result-cases,
}
use fillwire.Exec.State.{State, started}
use fillwire.Exec.Machine.{apply}
use fillwire.Exec.Machine.Invariant.{IsValid, ViewInt64}
use fillwire.Exec.Machine.Keeps.{apply-IsValid}
use fillwire.Exec.Journal.{
  Codec, Bytes, Line, split_line, one_line, lines_from, next_seq, replay_line, replay,
}
use fillwire.Exec.Journal.Reading.{lines_from-none, lines_from-ok, lines_from-err}

-- What the JSON decoder does with the fields of type int64: it fills them with int64 values.
abbrev pub DecodesInt64 : Codec → Type 0
DecodesInt64 c = (bs : Bytes) (l : Line) → c.decode bs ≡ some l → ViewInt64 l.rec.view

-- A state that is not started, or valid.
abbrev pub Settled : State → Type 0
Settled s = (started s ≡ false) ⊎ IsValid s

module _ (c : Codec) (ints : DecodesInt64 c) where
  replay_line-Settled :
      (s s' : State) (l : Line)
      → ViewInt64 l.rec.view
      → Settled s
      → replay_line c s l ≡ ok s'
      → Settled s'
  unfolding replay_line
  replay_line-Settled s s' l w h e = elim (Result-cases (apply s l.rec)) [
    | inr (x, bad) ↦ ground arith
    | inl (next, good) ↦
        let n-eq : s' ≡ next = ground arith in inr (rw n-eq (apply-IsValid s next l.rec h w good))
  ]

  one_line-Settled :
      (s s' : State) (n : ℕ) (bs : Bytes)
      → Settled s
      → one_line c (replay_line c) s n bs ≡ ok s'
      → Settled s'
  unfolding one_line
  one_line-Settled s s' n bs h e = elim (Option-cases (c.decode bs)) [
    | inl nothing ↦ ground arith
    | inr (l, found) ↦ replay_line-Settled s s' l (ints bs l found) h (ground arith)
  ]

  lines_from-Settled :
      (f : ℕ) (bs : Bytes) (s : State) (n e : ℕ)
      → Settled s
      → Settled (lines_from c (replay_line c) f bs s n e).value
  unfolding lines_from
  lines_from-Settled zero bs s n e h = h
  lines_from-Settled (suc f) bs s n e h = elim (Option-cases (split_line bs)) [
    | inl nothing ↦ rw (lines_from-none c (replay_line c) (suc f) bs s n e nothing) h
    | inr ((l, rest), found) ↦ elim (Result-cases (one_line c (replay_line c) s n l)) [
      | inr (x, bad) ↦ rw (lines_from-err c (replay_line c) f bs l rest s x n e found bad) h
      | inl (s', good) ↦ rw (lines_from-ok c (replay_line c) f bs l rest s s' n e found good) (
          lines_from-Settled f rest s' (next_seq n) (e + length l + 1)
            (one_line-Settled s s' n l h good))
    ]
  ]

  -- Whatever bytes the journal holds, where the decoder fills the int64 fields of a view with int64
  -- values: from a state that is not started its replay gives a state that is not started or that
  -- satisfies the invariant of the executor; also where it stops at a line that it refuses.
  pub replay-IsValid :
      (z : State) (bytes : Bytes) → started z ≡ false → Settled (replay c z bytes).value
  unfolding replay
  replay-IsValid z bytes h = lines_from-Settled (length bytes) bytes z 0 0 (inl h)
