-- ===== src/Exec/Journal/Reading.antt =====
-- The line reader of internal/exec/journal.go over a file and what was appended to it.
use Prim.Native.Nat.{pred}
use fillwire.Prelude.{
  ℕ, zero, suc, ◌+◌, ◌≤◌, ◌≡◌, refl, ◌∙◌, ap, false, Option, none, some, [], ◌∷◌, ◌++◌, ◌==◌,
  length, Result, ok, err, arith, Bool-cases, Option-cases, inl, inr, Result-cases, sym,
}
use fillwire.Exec.Journal.{
  Codec, Bytes, newline, Line, JournalError, Scan, split_line, one_line, lines_from, next_seq,
}

-- No byte is a newline.
abbrev pub IsOneLine : Bytes → Type 0
IsOneLine [] = Unit
IsOneLine (b ∷ bs) = ((b == newline) ≡ false) × IsOneLine bs

pub split_line-IsOneLine : (bs : Bytes) → IsOneLine bs → split_line bs ≡ none
unfolding split_line
split_line-IsOneLine [] h = refl
split_line-IsOneLine (b ∷ bs) h = rw (h.0, split_line-IsOneLine bs h.1)

pub split_line-line :
    (l rest : Bytes) → IsOneLine l → split_line (l ++ (newline ∷ rest)) ≡ some (l, rest)
unfolding split_line
split_line-line [] rest h = refl
split_line-line (b ∷ bs) rest h = rw (h.0, split_line-line bs rest h.1)

some≢none : {x : JournalError} → ◌≡◌ {A = Option JournalError} (some x) none → ⊥
some≢none h = cc

split_line-length :
    (bs l rest : Bytes) → split_line bs ≡ some (l, rest) → length bs ≡ length l + 1 + length rest
unfolding split_line
split_line-length [] l rest h = ground arith
split_line-length (b ∷ bs) l rest h = elim (Bool-cases (b == newline)) [
  | inl e ↦ ground arith
  | inr e ↦ elim (Option-cases (split_line bs)) [
    | inl nothing ↦ ground arith
    | inr ((l', r'), found) ↦ ground (arith, split_line-length bs l' r' found)
  ]
]

-- What follows a line that was found may be longer.
split_line-append :
    (bs l rest more : Bytes)
    → split_line bs ≡ some (l, rest)
    → split_line (bs ++ more) ≡ some (l, rest ++ more)
unfolding split_line
split_line-append [] l rest more h = ground arith
split_line-append (b ∷ bs) l rest more h = elim (Bool-cases (b == newline)) [
  | inl e ↦ ground arith
  | inr e ↦ elim (Option-cases (split_line bs)) [
    | inl nothing ↦ ground arith
    | inr ((l', r'), found) ↦ ground (arith, split_line-append bs l' r' more found)
  ]
]

module _ {S : Type 0} (c : Codec) (fn : S → Line → Result JournalError S) where
  -- The three ways in which a round ends.
  pub lines_from-none :
      (f : ℕ) (bs : Bytes) (st : S) (n e : ℕ)
      → split_line bs ≡ none
      → lines_from c fn f bs st n e ≡ record { value = st; count = n; end = e; error = none }
  unfolding lines_from
  lines_from-none zero bs st n e h = refl
  lines_from-none (suc f) bs st n e h = rw (h, lines_from) refl

  pub lines_from-ok :
      (f : ℕ) (bs l rest : Bytes) (st st' : S) (n e : ℕ)
      → split_line bs ≡ some (l, rest)
      → one_line c fn st n l ≡ ok st'
      → lines_from c fn (suc f) bs st n e
        ≡ lines_from c fn f rest st' (next_seq n) (e + length l + 1)
  unfolding lines_from
  lines_from-ok f bs l rest st st' n e h k = rw (h, lines_from) (rw (k, lines_from) refl)

  pub lines_from-err :
      (f : ℕ) (bs l rest : Bytes) (st : S) (x : JournalError) (n e : ℕ)
      → split_line bs ≡ some (l, rest)
      → one_line c fn st n l ≡ err x
      → lines_from c fn (suc f) bs st n e
        ≡ record { value = st; count = n; end = e; error = some x }
  unfolding lines_from
  lines_from-err f bs l rest st x n e h k = rw (h, lines_from) (rw (k, lines_from) refl)

  -- More fuel than there are bytes changes nothing.
  pub fuel_enough :
      (f g : ℕ) (bs : Bytes) (st : S) (n e : ℕ)
      → length bs ≤ f
      → length bs ≤ g
      → lines_from c fn f bs st n e ≡ lines_from c fn g bs st n e
  unfolding lines_from
  fuel_enough zero zero bs st n e h k = refl
  fuel_enough zero (suc g) [] st n e h k = refl
  fuel_enough zero (suc g) (b ∷ bs) st n e h k = absurd (omega arith)
  fuel_enough (suc f) zero [] st n e h k = refl
  fuel_enough (suc f) zero (b ∷ bs) st n e h k = absurd (omega arith)
  fuel_enough (suc f) (suc g) bs st n e h k = elim (Option-cases (split_line bs)) [
    | inl nothing ↦
        lines_from-none (suc f) bs st n e nothing ∙ sym (lines_from-none (suc g) bs st n e nothing)
    | inr ((l, rest), found) ↦
        let shorter = split_line-length bs l rest found in
        elim (Result-cases (one_line c fn st n l)) [
          | inl (st', good) ↦
              lines_from-ok f bs l rest st st' n e found good
              ∙ fuel_enough f g rest st' (next_seq n) (e + length l + 1) (omega (arith, shorter))
                  (omega (arith, shorter))
              ∙ sym (lines_from-ok g bs l rest st st' n e found good)
          | inr (x, bad) ↦
              lines_from-err f bs l rest st x n e found bad
              ∙ sym (lines_from-err g bs l rest st x n e found bad)
        ]
  ]

  -- A scan never ends before it began, nor past the bytes.
  end_bounds :
      (f : ℕ) (bs : Bytes) (st : S) (n e : ℕ)
      → (e ≤ (lines_from c fn f bs st n e).end)
        × ((lines_from c fn f bs st n e).end ≤ e + length bs)
  unfolding lines_from
  end_bounds zero bs st n e = (omega arith, omega arith)
  end_bounds (suc f) bs st n e = elim (Option-cases (split_line bs)) [
    | inl nothing ↦ rw (lines_from-none (suc f) bs st n e nothing) (omega arith, omega arith)
    | inr ((l, rest), found) ↦
        let shorter = split_line-length bs l rest found in
        elim (Result-cases (one_line c fn st n l)) [
          | inl (st', good) ↦
              let (low, high) = end_bounds f rest st' (next_seq n) (e + length l + 1) in
              rw (lines_from-ok f bs l rest st st' n e found good)
                (omega (arith, low), omega (arith, high, shorter))
          | inr (x, bad) ↦
              rw (lines_from-err f bs l rest st x n e found bad) (omega arith, omega arith)
        ]
  ]

  abbrev scanned_to : S → ℕ → ℕ → Scan S
  scanned_to st n e = record { value = st; count = n; end = e; error = none }

  -- Bytes whose scan stops before a line, and ends at their end, are none.
  same_end :
      (g h : ℕ) (bs more : Bytes) (st st' : S) (n n' e : ℕ)
      → length bs + length more ≤ g
      → length more ≤ h
      → scanned_to st n e ≡ scanned_to st' n' (e + length bs)
      → lines_from c fn g (bs ++ more) st n e ≡ lines_from c fn h more st' n' (e + length bs)
  same_end g h [] more st st' n n' e lg lh eq =
      let v : st ≡ st' = ap (λ (x : Scan S). x.value) eq in
      let k : n ≡ n' = ap (λ (x : Scan S). x.count) eq in
      let z : e + 0 ≡ e = omega arith in
      rw (z, ← v, ← k) (fuel_enough g h more st n e (omega arith) lh)
  same_end g h (b ∷ bs) more st st' n n' e lg lh eq =
      absurd (omega (arith, ap (λ (x : Scan S). x.end) eq))

  abbrev Continues : ℕ → ℕ → ℕ → Bytes → Bytes → S → S → ℕ → ℕ → ℕ → Type 0
  Continues f g h bs more st st' n n' e =
      length bs ≤ f
      → length bs + length more ≤ g
      → length more ≤ h
      → lines_from c fn f bs st n e ≡ scanned_to st' n' (e + length bs)
      → lines_from c fn g (bs ++ more) st n e ≡ lines_from c fn h more st' n' (e + length bs)

  -- The same, where a line stands first and the rest is known.
  line_then :
      (f g h : ℕ) (bs more l rest : Bytes) (st st' : S) (n n' e : ℕ)
      → length bs ≤ suc f
      → length bs + length more ≤ g
      → length more ≤ h
      → split_line bs ≡ some (l, rest)
      → lines_from c fn (suc f) bs st n e ≡ scanned_to st' n' (e + length bs)
      → ((s1 : S) → Continues f (pred g) h rest more s1 st' (next_seq n) n' (e + length l + 1))
      → lines_from c fn g (bs ++ more) st n e ≡ lines_from c fn h more st' n' (e + length bs)
  line_then f zero h bs more l rest st st' n n' e lf lg lh found eq ih =
      absurd (omega (arith, split_line-length bs l rest found))
  line_then f (suc g) h bs more l rest st st' n n' e lf lg lh found eq ih =
      let len = split_line-length bs l rest found in
      let far = split_line-append bs l rest more found in
      let z : e + length l + 1 + length rest ≡ e + length bs = omega (arith, len) in
      elim (Result-cases (one_line c fn st n l)) [
        | inl (s1, good) ↦
            lines_from-ok g (bs ++ more) l (rest ++ more) st s1 n e far good
            ∙ ih s1 (omega (arith, len)) (omega (arith, len)) lh (
                sym (lines_from-ok f bs l rest st s1 n e found good)
                ∙ eq
                ∙ ap (scanned_to st' n') (sym z))
            ∙ ap (lines_from c fn h more st' n') z
        | inr (x, bad) ↦ absurd (
            some≢none (
              ap (λ (s1 : Scan S). s1.error)
                (sym (lines_from-err f bs l rest st x n e found bad) ∙ eq)))
      ]

  -- Where the scan of some bytes ends at their end with no error, the scan of more bytes goes on
  -- from there.
  pub lines_from-append :
      (f g h : ℕ) (bs more : Bytes) (st st' : S) (n n' e : ℕ)
      → length bs ≤ f
      → length bs + length more ≤ g
      → length more ≤ h
      → lines_from c fn f bs st n e ≡ scanned_to st' n' (e + length bs)
      → lines_from c fn g (bs ++ more) st n e ≡ lines_from c fn h more st' n' (e + length bs)
  unfolding lines_from
  lines_from-append zero g h bs more st st' n n' e lf lg lh eq =
      same_end g h bs more st st' n n' e lg lh eq
  lines_from-append (suc f) g h bs more st st' n n' e lf lg lh eq =
      elim (Option-cases (split_line bs)) [
        | inl nothing ↦
            same_end g h bs more st st' n n' e lg lh
              (sym (lines_from-none (suc f) bs st n e nothing) ∙ eq)
        | inr ((l, rest), found) ↦
            line_then f g h bs more l rest st st' n n' e lf lg lh found eq (λ s1.
              lines_from-append f (pred g) h rest more s1 st' (next_seq n) n' (e + length l + 1))
      ]
