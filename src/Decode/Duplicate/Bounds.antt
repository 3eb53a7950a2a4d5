-- ===== src/Decode/Duplicate/Bounds.antt =====
-- The memory of notices against its bound (internal/decode/duplicate.go).
use fillwire.Prelude.{
  ℕ, List, [], ◌∷◌, ◌++◌, refl, none, some, inl, inr, true, false, ◌≡◌, ◌≤◌, length, arith, ap,
  Option, Bool-cases, ◌∙◌, ◌<◌, str_eq_refl, eq_iff, subst, sym, length-append, Option-cases, leb,
  leb-le,
}
use fillwire.Decode.Duplicate.{
  set_count, delete_count, count_of, DuplicateTracker, DuplicateKey, Counts, length, key_eq, arith,
  ap, Option, Bool-cases, str_eq_refl, evict, admit, observe, next_count, leb,
}

abbrev pub keys_of : Counts → List DuplicateKey
keys_of [] = []
keys_of ((k, n) ∷ es) = k ∷ keys_of es

abbrev pub DistinctCounts : Counts → Type 0
DistinctCounts [] = Unit
DistinctCounts ((k, n) ∷ es) = (count_of k es ≡ none) × DistinctCounts es

-- The queue holds the keys of the counts in their order, each once, and no more than the maximum.
pub record Bounded (t : DuplicateTracker) : Type 0 where
  pub keys : keys_of t.counts ≡ t.fifo
  pub distinct : DistinctCounts t.counts
  pub at_most : length t.counts ≤ t.max
  pub room : 1 ≤ t.max

key_eq_refl : (k : DuplicateKey) → key_eq k k ≡ true
key_eq_refl k = rw (str_eq_refl k.order_no) (ground arith)

key_eq_sym : (j k : DuplicateKey) → key_eq k j ≡ key_eq j k
key_eq_sym j k = ground (arith, eq_iff j.order_no k.order_no, eq_iff k.order_no j.order_no)

some_is_some : {n : ℕ} → ◌≡◌ {A = Option ℕ} (some n) none → ⊥
some_is_some h = cc

-- Setting a count keeps the keys.
set_count-keys : (k : DuplicateKey) (n : ℕ) (es : Counts) → keys_of (set_count k n es) ≡ keys_of es
unfolding set_count
set_count-keys k n [] = refl
set_count-keys k n ((j, m) ∷ es) = elim (Bool-cases (key_eq j k)) [
  | inl same ↦ rw same refl
  | inr other ↦ rw other (ap (λ (ks : List DuplicateKey). j ∷ ks) (set_count-keys k n es))
]

set_count-length : (k : DuplicateKey) (n : ℕ) (es : Counts) → length (set_count k n es) ≡ length es
unfolding set_count
set_count-length k n [] = refl
set_count-length k n ((j, m) ∷ es) = ground (arith, set_count-length k n es)

set_count-absent :
    (k l : DuplicateKey) (n : ℕ) (es : Counts)
    → count_of l es ≡ none
    → count_of l (set_count k n es) ≡ none
unfolding set_count count_of
set_count-absent k l n [] h = refl
set_count-absent k l n ((j, m) ∷ es) h = ground (arith, set_count-absent k l n es)

set_count-Distinct :
    (k : DuplicateKey) (n : ℕ) (es : Counts) → DistinctCounts es → DistinctCounts (set_count k n es)
unfolding set_count
set_count-Distinct k n [] d = tt
set_count-Distinct k n ((j, m) ∷ es) (out, d) = elim (Bool-cases (key_eq j k)) [
  | inl same ↦ rw same (out, d)
  | inr other ↦ rw other (set_count-absent k j n es out, set_count-Distinct k n es d)
]

set_count-count :
    (k : DuplicateKey) (n m : ℕ) (es : Counts)
    → count_of k es ≡ some m
    → count_of k (set_count k n es) ≡ some n
unfolding set_count count_of
set_count-count k n m [] h = cc
set_count-count k n m ((j, l) ∷ es) h = elim (Bool-cases (key_eq j k)) [
  | inl same ↦ rw same (rw same refl)
  | inr other ↦ rw other (rw other (set_count-count k n m es (rw other at h)))
]

-- A key behind the others.
keys_of-append :
    (k : DuplicateKey) (n : ℕ) (es : Counts) → keys_of (es ++ (k, n) ∷ []) ≡ keys_of es ++ k ∷ []
keys_of-append k n [] = refl
keys_of-append k n ((j, m) ∷ es) = ap (λ (ks : List DuplicateKey). j ∷ ks) (keys_of-append k n es)

count_of-append :
    (j k : DuplicateKey) (n : ℕ) (es : Counts)
    → count_of j es ≡ none
    → key_eq k j ≡ false
    → count_of j (es ++ (k, n) ∷ []) ≡ none
unfolding count_of
count_of-append j k n [] h d = rw d refl
count_of-append j k n ((l, m) ∷ es) h d = elim (Bool-cases (key_eq l j)) [
  | inl same ↦ absurd (some_is_some (rw same at h))
  | inr other ↦ rw other (count_of-append j k n es (rw other at h) d)
]

count_of-last :
    (k : DuplicateKey) (n : ℕ) (es : Counts)
    → count_of k es ≡ none
    → count_of k (es ++ (k, n) ∷ []) ≡ some n
unfolding count_of
count_of-last k n [] h = rw (key_eq_refl k) refl
count_of-last k n ((l, m) ∷ es) h = elim (Bool-cases (key_eq l k)) [
  | inl same ↦ absurd (some_is_some (rw same at h))
  | inr other ↦ rw other (count_of-last k n es (rw other at h))
]

-- A key that is not under another is not equal to the others.
append-Distinct :
    (k : DuplicateKey) (n : ℕ) (es : Counts)
    → DistinctCounts es
    → count_of k es ≡ none
    → DistinctCounts (es ++ (k, n) ∷ [])
unfolding count_of
append-Distinct k n [] d h = (refl, tt)
append-Distinct k n ((j, m) ∷ es) (out, d) h = elim (Bool-cases (key_eq j k)) [
  | inl same ↦ absurd (some_is_some (rw same at h))
  | inr other ↦ (
    count_of-append j k n es out (key_eq_sym j k ∙ other),
    append-Distinct k n es d (rw other at h),
  )
]

admit-Bounded :
    (k : DuplicateKey) (t : DuplicateTracker)
    → Bounded t
    → length t.counts < t.max
    → count_of k t.counts ≡ none
    → Bounded (admit k t)
admit-Bounded k t b room new = record {
  keys = keys_of-append k 1 t.counts ∙ ap (λ (ks : List DuplicateKey). ks ++ k ∷ []) b.keys;
  distinct = append-Distinct k 1 t.counts b.distinct new;
  at_most = omega (arith, length-append t.counts ((k, 1) ∷ []));
  room = b.room;
}

delete-absent : (k : DuplicateKey) (es : Counts) → count_of k es ≡ none → delete_count k es ≡ es
unfolding delete_count count_of
delete-absent k [] h = refl
delete-absent k ((j, m) ∷ es) h = elim (Bool-cases (key_eq j k)) [
  | inl same ↦ absurd (some_is_some (rw same at h))
  | inr other ↦ rw other (ap (λ (xs : Counts). (j, m) ∷ xs) (delete-absent k es (rw other at h)))
]

-- The oldest key is the first of the counts.
delete-first :
    (k : DuplicateKey) (n : ℕ) (es : Counts)
    → count_of k es ≡ none
    → delete_count k ((k, n) ∷ es) ≡ es
unfolding delete_count
delete-first k n es h = rw (key_eq_refl k) (delete-absent k es h)

evict-oldest :
    (k : DuplicateKey) (es : Counts) (t : DuplicateTracker)
    → t.counts ≡ es
    → Bounded t
    → count_of k es ≡ none
    → t.max ≤ length es
    → Bounded (evict (keys_of es) t)
      × (length (evict (keys_of es) t).counts < t.max)
      × (count_of k (evict (keys_of es) t).counts ≡ none)
unfolding count_of
evict-oldest k [] t eq b new full = absurd (omega (arith, b.room))
evict-oldest k ((j, n) ∷ es) t eq b new full = elim (Bool-cases (key_eq j k)) [
  | inl same ↦ absurd (some_is_some (rw same at new))
  | inr other ↦
      let d : DistinctCounts ((j, n) ∷ es) = subst DistinctCounts eq b.distinct in
      let gone : delete_count j t.counts ≡ es = ap (delete_count j) eq ∙ delete-first j n es d.0 in
      let most : length ((j, n) ∷ es) ≤ t.max =
        subst (λ (xs : Counts). length xs ≤ t.max) eq b.at_most in
      let less : length (delete_count j t.counts) < t.max =
        subst (λ (xs : Counts). length xs < t.max) (sym gone) (omega arith) in
      (
        record {
          keys = ap keys_of gone;
          distinct = subst DistinctCounts (sym gone) d.1;
          at_most = omega arith;
          room = b.room;
        },
        less,
        ap (count_of k) gone ∙ (rw other at new),
      )
]

evict-max : (ks : List DuplicateKey) (t : DuplicateTracker) → (evict ks t).max ≡ t.max
evict-max [] t = refl
evict-max (k ∷ ks) t = refl

-- What `observe` makes of a bounded tracker.
abbrev Observes : DuplicateKey → ℕ × DuplicateTracker → Type 0
Observes k (n, t) = Bounded t × (count_of k t.counts ≡ some n)

known-Observes :
    (k : DuplicateKey) (n m : ℕ) (t : DuplicateTracker)
    → Bounded t
    → count_of k t.counts ≡ some n
    → Observes k (m, record t { counts = set_count k m t.counts })
known-Observes k n m t b h = (
  record {
    keys = set_count-keys k m t.counts ∙ b.keys;
    distinct = set_count-Distinct k m t.counts b.distinct;
    at_most = omega (arith, set_count-length k m t.counts, b.at_most);
    room = b.room;
  },
  set_count-count k m n t.counts h,
)

observe-full :
    (k : DuplicateKey) (t : DuplicateTracker)
    → count_of k t.counts ≡ none
    → leb t.max (length t.counts) ≡ true
    → observe k t ≡ (1, admit k (evict t.fifo t))
unfolding observe
observe-full k t new full = rw (new, observe) (rw (full, observe) refl)

observe-Observes : (k : DuplicateKey) (t : DuplicateTracker) → Bounded t → Observes k (observe k t)
unfolding observe
observe-Observes k t b = elim (Option-cases (count_of k t.counts)) [
  | inr (n, known) ↦ rw (known, observe) (known-Observes k n (next_count n) t b known)
  | inl new ↦ elim (Bool-cases (leb t.max (length t.counts))) [
    | inr room ↦
        rw (new, observe)
          (rw (room, observe)
            (admit-Bounded k t b (ground arith) new, count_of-last k 1 t.counts new))
    | inl full ↦
        let t' = evict t.fifo t in
        let (b', less, new') =
          subst
            (λ (ks : List DuplicateKey).
              Bounded (evict ks t)
              × (length (evict ks t).counts < t.max)
              × (count_of k (evict ks t).counts ≡ none))
            b.keys (evict-oldest k t.counts t refl b new (leb-le t.max (length t.counts) full)) in
        rw (observe-full k t new full) (
          admit-Bounded k t' b'
              (subst (λ (m : ℕ). length t'.counts < m) (sym (evict-max t.fifo t)) less) new',
          count_of-last k 1 t'.counts new',
        )
  ]
]

-- The results of observing the keys in order.
unfoldable pub observe_all : List DuplicateKey → DuplicateTracker → List ℕ × DuplicateTracker
observe_all [] t = ([], t)
observe_all (k ∷ ks) t =
    let (n, t') = observe k t in let (ns, t'') = observe_all ks t' in (n ∷ ns, t'')

-- From a bounded tracker, whatever keys are observed: the queue holds the keys of the counts in
-- their order, each once and no more than the maximum; and a key that is observed next has the
-- count that is returned for it.
pub observe_all-Bounded :
    (ks : List DuplicateKey) (k : DuplicateKey) (t : DuplicateTracker)
    → Bounded t
    → let t' = (observe_all ks t).1 in
      Bounded t'
      × Bounded (observe k t').1
      × (count_of k (observe k t').1.counts ≡ some (observe k t').0)
unfolding observe_all
observe_all-Bounded [] k t b = (b, (observe-Observes k t b).0, (observe-Observes k t b).1)
observe_all-Bounded (j ∷ ks) k t b =
    observe_all-Bounded ks k (observe j t).1 (observe-Observes j t b).0
