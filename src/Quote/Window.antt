-- ===== src/Quote/Window.antt =====
-- The admissions in a window of a second (internal/quote/limits.go).
use mathlib.Core.List.{append_assoc, append-nil}
use fillwire.Prelude.{
  ℕ, List, [], ◌∷◌, refl, ◌≤◌, ◌<◌, ◌++◌, ◌≡◌, ◌+◌, if◌then◌else◌, leb, is_none, arith, ◌&&◌,
  length, ltb, suc, ◌∙◌, Option, Bool-cases, inl, false, ◌⊎◌, ltb-lt, inr, ap, true, sym, subst,
}
use fillwire.Quote.{
  keep, DeclareLimiter, reserve, declare_window, cool_down, new_declare_limiter, is_recent,
  declare_limit,
}

-- A call of the limiter: `reserve` at a time, or `coolDown`.
pub data Call : Type 0 where
  reserve_at cool_down_until : ℕ → Call

-- The clock does not go back over the calls, from a time on.
abbrev pub Advances : ℕ → List Call → Type 0
Advances last [] = Unit
Advances last (reserve_at now ∷ calls) = (last ≤ now) × Advances now calls
Advances last (cool_down_until u ∷ calls) = Advances last calls

-- The times at which the calls were admitted.
unfoldable pub admissions : List Call → DeclareLimiter → List ℕ
admissions [] l = []
admissions (reserve_at now ∷ calls) l =
    let (wait, l') = reserve now l in
    let rest = admissions calls l' in if is_none wait then now ∷ rest else rest
admissions (cool_down_until u ∷ calls) l = admissions calls (cool_down u l)

-- How many of the times lie in the window that begins at a time.
unfoldable pub in_window : ℕ → List ℕ → ℕ
in_window from [] = 0
in_window from (at ∷ ats) =
    let rest = in_window from ats in
    if leb from at && ltb at (from + declare_window) then suc rest else rest

in_window-append :
    (from : ℕ) (xs ys : List ℕ) → in_window from (xs ++ ys) ≡ in_window from xs + in_window from ys
unfolding in_window
in_window-append from [] ys = omega arith
in_window-append from (x ∷ xs) ys = ground (arith, in_window-append from xs ys)

-- What is in a window that has not ended by `now` has been kept at `now`.
in_window-keep :
    (from now : ℕ) (xs : List ℕ)
    → now < from + declare_window
    → in_window from xs ≤ length (keep now xs)
unfolding in_window keep
in_window-keep from now [] h = omega arith
in_window-keep from now (x ∷ xs) h = ground (arith, in_window-keep from now xs h)

keep-keep : (last now : ℕ) (xs : List ℕ) → last ≤ now → keep now (keep last xs) ≡ keep now xs
unfolding keep
keep-keep last now [] h = refl
keep-keep last now (x ∷ xs) h = ground (arith, keep-keep last now xs h)

keep-append : (now : ℕ) (xs ys : List ℕ) → keep now (xs ++ ys) ≡ keep now xs ++ keep now ys
unfolding keep
keep-append now [] ys = refl
keep-append now (x ∷ xs) ys = elim (Bool-cases (is_recent now x)) [
  | inl recent ↦ rw recent (ap (λ (zs : List ℕ). x ∷ zs) (keep-append now xs ys))
  | inr old ↦ rw old (keep-append now xs ys)
]

keep-now : (now : ℕ) → keep now (now ∷ []) ≡ now ∷ []
unfolding keep
keep-now now = ground arith

-- How a reservation ends: refused, or admitted with fewer than five in the window.
abbrev ReserveCase : ℕ → DeclareLimiter → Option ℕ × DeclareLimiter → Type 0
ReserveCase now l (wait, l') =
    (is_none wait ≡ false) × (l'.admitted ≡ keep now l.admitted)
    ⊎ (is_none wait ≡ true)
      × (l'.admitted ≡ keep now l.admitted ++ now ∷ [])
      × (length (keep now l.admitted) < 5)

reserve-cases : (now : ℕ) (l : DeclareLimiter) → ReserveCase now l (reserve now l)
unfolding reserve
reserve-cases now l = elim (Bool-cases (ltb now l.not_before)) [
  | inl early ↦ rw early (inl (refl, refl))
  | inr late ↦ elim (Bool-cases (leb declare_limit (length (keep now l.admitted)))) [
    | inl full ↦ rw (late, full) (inl (refl, refl))
    | inr room ↦ rw (late, room) (inr (refl, refl, ground arith))
  ]
]

cool_down-admitted : (u : ℕ) (l : DeclareLimiter) → (cool_down u l).admitted ≡ l.admitted
unfolding cool_down
cool_down-admitted u l = ground arith

one_more :
    (now : ℕ) (past : List ℕ)
    → ((from : ℕ) → in_window from past ≤ 5)
    → length (keep now past) < 5
    → (from : ℕ) → in_window from (past ++ now ∷ []) ≤ 5
unfolding in_window
one_more now past h room from =
    let k = in_window-append from past (now ∷ []) in
    elim (Bool-cases (ltb now (from + declare_window))) [
      | inl inside ↦ ground (
        arith,
        k,
        h from,
        in_window-keep from now past (ltb-lt now (from + declare_window) inside),
      )
      | inr outside ↦ ground (arith, k, h from)
    ]

admitted_next :
    (past : List ℕ) (now : ℕ) {kept : List ℕ}
    → kept ≡ keep now past
    → kept ++ now ∷ [] ≡ keep now (past ++ now ∷ [])
admitted_next past now same =
    ap (λ (xs : List ℕ). xs ++ now ∷ []) same
    ∙ sym
        (keep-append now past (now ∷ []) ∙ ap (λ (xs : List ℕ). keep now past ++ xs) (keep-now now))

admissions-within :
    (calls : List Call) (l : DeclareLimiter) (past : List ℕ) (last : ℕ)
    → l.admitted ≡ keep last past
    → ((from : ℕ) → in_window from past ≤ 5)
    → Advances last calls
    → (from : ℕ) → in_window from (past ++ admissions calls l) ≤ 5
unfolding admissions
admissions-within [] l past last same h adv from = rw (append-nil past) (h from)
admissions-within (cool_down_until u ∷ calls) l past last same h adv from =
    admissions-within calls (cool_down u l) past last (cool_down-admitted u l ∙ same) h adv from
admissions-within (reserve_at now ∷ calls) l past last same h (later, adv) from =
    let kept : keep now l.admitted ≡ keep now past =
      ap (keep now) same ∙ keep-keep last now past later in
    elim (reserve-cases now l) [
      | inl (refused, same') ↦
          rw refused (admissions-within calls (reserve now l).1 past now (same' ∙ kept) h adv from)
      | inr (reserved, same', room) ↦
          rw (reserved, ← append_assoc past (now ∷ []) (admissions calls (reserve now l).1))
            (admissions-within calls (reserve now l).1 (past ++ now ∷ []) now
              (same' ∙ admitted_next past now kept)
              (one_more now past h (subst (λ (xs : List ℕ). length xs < 5) kept room)) adv from)
    ]

-- Whatever calls are made of a new limiter while its clock does not go back, reservations and
-- cool-downs in any order: at most five reservations are admitted in any window of a second.
pub in_window-admissions :
    (calls : List Call)
    → Advances 0 calls
    → (from : ℕ) → in_window from (admissions calls new_declare_limiter) ≤ declare_limit
unfolding in_window keep
in_window-admissions calls adv from =
    admissions-within calls new_declare_limiter [] 0 refl (λ (t : ℕ). omega arith) adv from
