-- ===== src/Quote/Session/Merge.antt =====
-- The times the quote socket is open (internal/quote/session.go, `intervals` and `At`).
use fillwire.Prelude.{
  ℕ, List, [], ◌∷◌, refl, Bool, true, false, none, some, inl, inr, ◌≤◌, ◌+◌, ltb, leb, ◌||◌, ◌&&◌,
  ◌≡◌, ◌<◌, arith, ◌⊎◌, not, Option, Bool-cases, ◌∙◌, sym, ltb-lt, ap,
}
use fillwire.Quote.Session.{Interval, holds, merge_gap, join, merge_from, merge, closes}

-- Some interval holds the time.
abbrev pub covered : ℕ → List Interval → Bool
covered t [] = false
covered t (x ∷ xs) = holds t x || covered t xs

-- The interval holds the time, or ended less than the gap before it.
abbrev pub nearly : ℕ → Interval → Bool
nearly t x = leb x.start t && ltb t (x.end + merge_gap)

abbrev pub nearly_covered : ℕ → List Interval → Bool
nearly_covered t [] = false
nearly_covered t (x ∷ xs) = nearly t x || nearly_covered t xs

-- No interval starts before the one in front of it.
abbrev pub StartsSorted : Interval → List Interval → Type 0
StartsSorted x [] = Unit
StartsSorted x (y ∷ ys) = (x.start ≤ y.start) × StartsSorted y ys

-- Each interval starts more than the gap behind the end of the one in front of it.
abbrev pub Separated : Interval → List Interval → Type 0
Separated x [] = Unit
Separated x (y ∷ ys) = (x.end + merge_gap < y.start) × Separated y ys

abbrev pub AllSeparated : List Interval → Type 0
AllSeparated [] = Unit
AllSeparated (x ∷ xs) = Separated x xs

StartsSorted-join :
    (x y : Interval) (ys : List Interval)
    → x.start ≤ y.start
    → StartsSorted y ys
    → StartsSorted (join x y) ys
StartsSorted-join x y [] h s = tt
StartsSorted-join x y (z ∷ zs) h (k, s) = (ground arith, s)

covered-join :
    (t : ℕ) (x y : Interval)
    → x.start ≤ y.start
    → (holds t x || holds t y) ≡ true
    → holds t (join x y) ≡ true
covered-join t x y h k = ground arith

nearly-join :
    (t : ℕ) (x y : Interval)
    → ltb (x.end + merge_gap) y.start ≡ false
    → (leb (join x y).start t && ltb t ((join x y).end + merge_gap)) ≡ true
    → ((leb x.start t && ltb t (x.end + merge_gap)) || (leb y.start t && ltb t (y.end + merge_gap)))
      ≡ true
nearly-join t x y h k = ground arith

holds-near :
    (t : ℕ) (x : Interval) → holds t x ≡ true → (leb x.start t && ltb t (x.end + merge_gap)) ≡ true
holds-near t x h = ground arith

join-start : (x y : Interval) → (join x y).start ≡ x.start
join-start x y = ground arith

none_is_some : {n : ℕ} → ◌≡◌ {A = Option ℕ} none (some n) → ⊥
none_is_some h = cc

or-cases : (a b : Bool) → (a || b) ≡ true → (a ≡ true) ⊎ (b ≡ true)
or-cases a b h = ground arith

or_left : (a b : Bool) → a ≡ true → (a || b) ≡ true
or_left a b h = ground arith

or_right : (a b : Bool) → b ≡ true → (a || b) ≡ true
or_right a b h = ground arith

true_of_not : (b : Bool) → not b ≡ true → b ≡ false
true_of_not b h = ground arith

false_of_not : (b : Bool) → not b ≡ false → b ≡ true
false_of_not b h = ground arith

merge_from-covered :
    (t : ℕ) (x : Interval) (ys : List Interval)
    → StartsSorted x ys
    → (holds t x || covered t ys) ≡ true
    → covered t (merge_from x ys) ≡ true
unfolding merge_from
merge_from-covered t x [] s h = h
merge_from-covered t x (y ∷ ys) (k, s) h =
    elim (Bool-cases (not (ltb (x.end + merge_gap) y.start))) [
      | inl near ↦ rw near (
          merge_from-covered t (join x y) ys (StartsSorted-join x y ys k s)
            (elim (or-cases (holds t x) (holds t y || covered t ys) h) [
              | inl a ↦ or_left _ _ (covered-join t x y k (or_left _ _ a))
              | inr r ↦ elim (or-cases (holds t y) (covered t ys) r) [
                | inl b ↦ or_left _ _ (covered-join t x y k (or_right _ _ b))
                | inr c ↦ or_right _ _ c
              ]
            ]))
      | inr far ↦ rw far (elim (or-cases (holds t x) (holds t y || covered t ys) h) [
        | inl a ↦ or_left _ _ a
        | inr r ↦ or_right _ _ (merge_from-covered t y ys s r)
      ])
    ]

merge_from-near :
    (t : ℕ) (x : Interval) (ys : List Interval)
    → covered t (merge_from x ys) ≡ true
    → nearly_covered t (x ∷ ys) ≡ true
unfolding merge_from
merge_from-near t x [] h = ground arith
merge_from-near t x (y ∷ ys) h = elim (Bool-cases (not (ltb (x.end + merge_gap) y.start))) [
  | inl near ↦
      elim (or-cases (leb (join x y).start t && ltb t ((join x y).end + merge_gap))
        (nearly_covered t ys) (merge_from-near t (join x y) ys (rw near at h))) [
          | inl a ↦
              elim (or-cases (nearly t x) (nearly t y) (nearly-join t x y (true_of_not _ near) a)) [
                | inl b ↦ or_left (nearly t x) (nearly t y || nearly_covered t ys) b
                | inr c ↦ or_right (nearly t x) _ (or_left (nearly t y) (nearly_covered t ys) c)
              ]
          | inr r ↦ or_right (nearly t x) _ (or_right (nearly t y) (nearly_covered t ys) r)
        ]
  | inr far ↦ elim (or-cases (holds t x) (covered t (merge_from y ys)) (rw far at h)) [
    | inl a ↦ or_left (nearly t x) (nearly_covered t (y ∷ ys)) (holds-near t x a)
    | inr r ↦ or_right (nearly t x) (nearly_covered t (y ∷ ys)) (merge_from-near t y ys r)
  ]
]

merge_from-Separated :
    (x : Interval) (ys : List Interval)
    → (z : Interval) × (zs : List Interval) × (merge_from x ys ≡ z ∷ zs)
      × (z.start ≡ x.start)
      × Separated z zs
unfolding merge_from
merge_from-Separated x [] = (x, [], refl, refl, tt)
merge_from-Separated x (y ∷ ys) = elim (Bool-cases (not (ltb (x.end + merge_gap) y.start))) [
  | inl near ↦
      let (z, zs, eq, at, sep) = merge_from-Separated (join x y) ys in
      (z, zs, rw near eq, at ∙ join-start x y, sep)
  | inr far ↦
      let (z, zs, eq, at, sep) = merge_from-Separated y ys in
      let gap : x.end + merge_gap < z.start =
        rw at (ltb-lt (x.end + merge_gap) y.start (false_of_not _ far)) in
      (x, z ∷ zs, rw far (ap (λ (l : List Interval). x ∷ l) eq), refl, (gap, sep))
]

closes-covered :
    (t : ℕ) (xs : List Interval) → covered t xs ≡ true → (e : ℕ) × (closes t xs ≡ some e) × (t < e)
unfolding closes
closes-covered t [] h = cc
closes-covered t (x ∷ xs) h = elim (Bool-cases (holds t x)) [
  | inl here ↦ (x.end, rw here refl, ground arith)
  | inr later ↦ let (e, eq, k) = closes-covered t xs (rw later at h) in (e, rw later eq, k)
]

closes-none : (t : ℕ) (xs : List Interval) → covered t xs ≡ false → closes t xs ≡ none
unfolding closes
closes-none t [] h = refl
closes-none t (x ∷ xs) h = ground (arith, closes-none t xs)

-- The windows in the order of their starts, one of which holds the time: after merging, each
-- interval starts more than thirty minutes behind the end of the one in front of it, so a pause of
-- exactly thirty minutes is merged as a shorter one is; and the socket is open at that time, until a
-- later one.
pub closes-merge :
    (x : Interval) (ys : List Interval) (t : ℕ)
    → StartsSorted x ys
    → covered t (x ∷ ys) ≡ true
    → AllSeparated (merge (x ∷ ys)) × (e : ℕ) × (closes t (merge (x ∷ ys)) ≡ some e) × (t < e)
unfolding merge
closes-merge x ys t s h =
    let (z, zs, eq, at, sep) = merge_from-Separated x ys in
    let (e, ends, k) = closes-covered t (merge_from x ys) (merge_from-covered t x ys s h) in
    (rw eq sep, e, ends, k)

-- Where the socket is open, some window holds the time or ended less than thirty minutes before it.
pub nearly_covered-merge :
    (x : Interval) (ys : List Interval) (t e : ℕ)
    → closes t (merge (x ∷ ys)) ≡ some e
    → nearly_covered t (x ∷ ys) ≡ true
unfolding merge
nearly_covered-merge x ys t e h = elim (Bool-cases (covered t (merge_from x ys))) [
  | inl opened ↦ merge_from-near t x ys opened
  | inr shut ↦ absurd (none_is_some (sym (closes-none t (merge_from x ys) shut) ∙ h))
]
