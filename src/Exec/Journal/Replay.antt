-- ===== src/Exec/Journal/Replay.antt =====
-- Replay behind an append and behind a torn write (internal/exec/journal.go).
use fillwire.Prelude.{
  ℕ, zero, suc, ◌+◌, ◌≡◌, refl, ◌∙◌, ap, ◌⊎◌, inl, inr, true, false, none, some, [], ◌∷◌, ◌++◌,
  ◌==◌, str_eq_refl, length, length-append, take, ok, arith, take-append, take-all, Option,
  Option-cases, sym,
}
use fillwire.Exec.State.{State, Record}
use fillwire.Exec.Machine.{apply}
use fillwire.Exec.Journal.{
  Codec, Bytes, newline, Line, one_line, lines_from, next_seq, replay_line, replay, line_bytes,
  open_journal, line_of, Option,
}
use fillwire.Exec.Journal.Reading.{
  IsOneLine, split_line-IsOneLine, split_line-line, lines_from-none, lines_from-ok,
  lines_from-append, fuel_enough,
}

-- What the code relies on in the JSON encoder and decoder: a line that encodes decodes again, and
-- its encoding has no newline in it.
pub record CodecLaws (c : Codec) : Type 0 where
  pub round_trip : (l : Line) (bs : Bytes) → c.encode l ≡ some bs → c.decode bs ≡ some l
  pub one_line_each : (l : Line) (bs : Bytes) → c.encode l ≡ some bs → IsOneLine bs

-- The journal replays, to its end, to the state and the sequence.
abbrev pub ReplaysTo : Codec → State → Bytes → State → ℕ → Type 0
ReplaysTo c z file s n =
    replay c z file ≡ record { value = s; count = n; end = length file; error = none }

==-refl : (n : ℕ) → (n == n) ≡ true
==-refl n = ground arith

none≢some_line : (l : Bytes) → ◌≡◌ {A = Option Bytes} none (some l) → ⊥
none≢some_line l h = cc

some-inj : {a b : Bytes} → ◌≡◌ {A = Option Bytes} (some a) (some b) → a ≡ b
some-inj h = cc

module _ (c : Codec) (laws : CodecLaws c) where
  written_line :
      (s s' : State) (n : ℕ) (r : Record) (l : Bytes)
      → apply s r ≡ ok s'
      → c.encode (line_of c n r s') ≡ some l
      → one_line c (replay_line c) s n l ≡ ok s'
  unfolding one_line replay_line
  written_line s s' n r l h enc =
      rw (laws.round_trip (line_of c n r s') l enc, one_line)
        (rw (==-refl (next_seq n), replay_line)
          (rw (h, replay_line) (rw (str_eq_refl (c.digest s'), replay_line) refl)))

  line_bytes-some :
      (n : ℕ) (r : Record) (s : State) (line : Bytes)
      → line_bytes c n r s ≡ some line
      → (l : Bytes) × (c.encode (line_of c n r s) ≡ some l) × (line ≡ l ++ newline ∷ [])
  unfolding line_bytes
  line_bytes-some n r s line h = elim (Option-cases (c.encode (line_of c n r s))) [
    | inl missing ↦ absurd (none≢some_line line (rw missing at h))
    | inr (l, enc) ↦ (l, enc, sym (some-inj (rw enc at h)))
  ]

  module _ (z s : State) (n : ℕ) (file : Bytes) (synced : ReplaysTo c z file s n) where
    -- Replay goes on behind a complete journal.
    replay-more :
        (more : Bytes)
        → replay c z (file ++ more)
          ≡ lines_from c (replay_line c) (length more) more s n (length file)
    unfolding replay
    replay-more more =
        let z0 : 0 + length file ≡ length file = omega arith in
        rw (← z0) (
          lines_from-append c (replay_line c) (length file) (length (file ++ more)) (length more)
            file more z s 0 n 0 (omega arith) (omega (arith, length-append file more)) (omega arith)
            (rw z0 synced))

    -- Bytes behind a complete journal that hold no newline, as a write that a crash cut short
    -- leaves them, change neither the state nor the sequence that it replays to, nor the offset
    -- at which the next record is written; and opening the journal cuts them off.
    pub replay-torn :
        (torn : Bytes)
        → IsOneLine torn
        → (replay c z (file ++ torn)
            ≡ record { value = s; count = n; end = length file; error = none })
          × (open_journal c z false (file ++ torn) ≡ ok (record { file = file; seq = n }, s))
    unfolding open_journal
    replay-torn torn h =
        let r : replay c z (file ++ torn)
            ≡ record { value = s; count = n; end = length file; error = none } =
          replay-more torn
          ∙ lines_from-none c (replay_line c) (length torn) torn s n (length file)
              (split_line-IsOneLine torn h) in
        (r, rw r (rw (take-append file torn) refl))

    replay-line :
        (r : Record) (s' : State) (l : Bytes)
        → apply s r ≡ ok s'
        → c.encode (line_of c n r s') ≡ some l
        → ReplaysTo c z (file ++ (l ++ newline ∷ [])) s' (next_seq n)
    replay-line r s' l h enc =
        let end : length (file ++ (l ++ newline ∷ [])) ≡ length file + length l + 1 =
          omega (arith, length-append file (l ++ newline ∷ []), length-append l (newline ∷ [])) in
        let k : length (l ++ newline ∷ []) ≡ length l + 1 =
          omega (arith, length-append l (newline ∷ [])) in
        replay-more (l ++ newline ∷ [])
        ∙ rw (k, end)
            (fuel_enough c (replay_line c) (length l + 1) (suc (length l)) (l ++ newline ∷ []) s n
                (length file) (omega arith) (omega arith)
              ∙ lines_from-ok c (replay_line c) (length l) (l ++ newline ∷ []) l [] s s' n
                  (length file) (split_line-line l [] (laws.one_line_each (line_of c n r s') l enc))
                  (written_line s s' n r l h enc)
              ∙ lines_from-none c (replay_line c) (length l) [] s' (next_seq n)
                  (length file + length l + 1) (split_line-IsOneLine [] tt))

    -- A record that `Apply` accepts in the state of a complete journal: with its line appended the
    -- journal replays, to its end, to the state after the record and the next sequence.
    pub replay-append :
        (r : Record) (s' : State) (line : Bytes)
        → apply s r ≡ ok s'
        → line_bytes c n r s' ≡ some line
        → ReplaysTo c z (file ++ line) s' (next_seq n)
    replay-append r s' line h whole =
        let (l, enc, eq) = line_bytes-some n r s' line whole in rw eq (replay-line r s' l h enc)

take-cases :
    (k : ℕ) (xs : Bytes) (y : ℕ)
    → (take k (xs ++ y ∷ []) ≡ take k xs) ⊎ (take k (xs ++ y ∷ []) ≡ xs ++ y ∷ [])
take-cases zero xs y = inl refl
take-cases (suc zero) [] y = inr refl
take-cases (suc (suc k)) [] y = inr refl
take-cases (suc k) (x ∷ xs) y = elim (take-cases k xs y) [
  | inl e ↦ inl (ap (λ (t : Bytes). x ∷ t) e)
  | inr e ↦ inr (ap (λ (t : Bytes). x ∷ t) e)
]

take-IsOneLine : (k : ℕ) (xs : Bytes) → IsOneLine xs → IsOneLine (take k xs)
take-IsOneLine zero xs h = tt
take-IsOneLine (suc k) [] h = tt
take-IsOneLine (suc k) (x ∷ xs) h = (h.0, take-IsOneLine k xs h.1)

-- A record that `Apply` accepts in the state of a complete journal, whose line was written only up
-- to some byte when the program stopped: opening the journal gives the state and the sequence
-- before the record with the file before it, or those after the record with its whole line.
pub open_journal-cut :
    (c : Codec) (laws : CodecLaws c) (z s s' : State) (n : ℕ) (file : Bytes) (r : Record)
    (line : Bytes) (written : ℕ)
    → ReplaysTo c z file s n
    → apply s r ≡ ok s'
    → line_bytes c n r s' ≡ some line
    → let reopened = open_journal c z false (file ++ take written line) in
      (reopened ≡ ok (record { file = file; seq = n }, s))
      ⊎ (reopened ≡ ok (record { file = file ++ line; seq = next_seq n }, s'))
unfolding open_journal
open_journal-cut c laws z s s' n file r line written synced h some_line =
    let (l, enc, eq) = line_bytes-some c laws n r s' line some_line in
    rw eq (elim (take-cases written l newline) [
      | inl part ↦ inl (
          rw part
            (replay-torn c laws z s n file synced (take written l)
              (take-IsOneLine written l (laws.one_line_each (line_of c n r s') l enc))).1)
      | inr whole ↦ inr (
          rw whole (
            rw (replay-line c laws z s n file synced r s' l h enc)
              (rw (take-all (file ++ (l ++ newline ∷ []))) refl)))
    ])
