-- ===== src/Exec/E1/Reads/Snapshot.antt =====
-- What a snapshot of fills has that internal/exec/e1/reads.go accepts.
use fillwire.Exec.E1.{Client, E1Error, Result, Bool, not, leb_ℤ, str_eq}
use fillwire.Exec.E1.Reads.{
  Reader, LedgerFill, LedgerOrder, FillsSnapshot, execution, check_fills, check_order, check_orders,
  check_snapshot, read_fills, read_text, member, same_side, number_of, has_number, eq_ℤ, ltb_ℤ,
  no_codes,
}
use fillwire.Exec.Side.{Side}
use fillwire.Exec.State.{Fill}
use fillwire.Prelude.{
  ℕ, refl, String, List, [], ◌∷◌, Option, some, none, ok, err, ◌≡◌, true, false, All, arith, ap,
  Result, Bool, ◌||◌, ok-eq, not, Bool-cases, ltb-ge, inl, inr, Option-cases, str_eq, some-eq, sym,
  Result-cases, ◌∙◌, subst, str_eq→eq,
}
use fillwire.Prelude.Int.{ℤ, pos, ◌≤ℤ◌, eq_ℤ, leb_ℤ, ltb_ℤ}
use fillwire.Prelude.Word.{add64}
use fillwire.Exec.Ledger.{no_codes}

-- A fill of the side of the intent that becomes a fill of the executor, within its bounds.
abbrev pub GoodFill : Reader → Side → LedgerFill → Type 0
GoodFill reader side f =
    (same_side f.side side ≡ true)
    × (e : Fill) × (execution reader f ≡ some e)
    × (pos 1 ≤ℤ f.qty)
    × (f.qty ≤ℤ pos 1000000)
    × (e.fill_id ≡ f.fill_id)
    × (e.qty ≡ f.qty)
    × (pos 1 ≤ℤ e.price)
    × (e.price ≤ℤ pos 10000000)

-- The sum of the quantities from a total on, as int64 adds them.
abbrev pub total_of : ℤ → List LedgerFill → ℤ
total_of total [] = total
total_of total (f ∷ fs) = total_of (add64 total f.qty) fs

-- The identifiers that are seen behind the fills.
abbrev pub seen_behind : List String → List LedgerFill → List String
seen_behind ids [] = ids
seen_behind ids (f ∷ fs) = seen_behind (f.fill_id ∷ ids) fs

-- No fill has an identifier that was seen, or that of another one.
abbrev pub Apart : List String → List LedgerFill → Type 0
Apart ids [] = Unit
Apart ids (f ∷ fs) = (member f.fill_id ids ≡ false) × Apart (f.fill_id ∷ ids) fs

-- Orders, each with a number that was not seen, and with good fills that add up to its quantity.
abbrev pub GoodOrders : Reader → Side → List (List ℕ) → List String → List LedgerOrder → Type 0
GoodOrders reader side numbers ids [] = Unit
GoodOrders reader side numbers ids (o ∷ os) =
    (fs : List LedgerFill) × (o.fills ≡ some fs)
    × (has_number (number_of o) numbers ≡ false)
    × All (GoodFill reader side) fs
    × Apart ids fs
    × (eq_ℤ (total_of (pos 0) fs) o.cumulative_qty ≡ true)
    × GoodOrders reader side (number_of o ∷ numbers) (seen_behind ids fs) os

refuted : {A : Type 0} {e : E1Error} {a : A} → ◌≡◌ {A = Result E1Error A} (err e) (ok a) → ⊥
refuted h = cc

some-none : {e : E1Error} → ◌≡◌ {A = Option E1Error} (some e) none → ⊥
some-none h = cc

none-some : {e : Fill} → ◌≡◌ {A = Option Fill} none (some e) → ⊥
none-some h = cc

execution-Bounds :
    (reader : Reader) (f : LedgerFill) (e : Fill)
    → execution reader f ≡ some e
    → (pos 1 ≤ℤ f.qty)
      × (f.qty ≤ℤ pos 1000000)
      × (e.fill_id ≡ f.fill_id)
      × (e.qty ≡ f.qty)
      × (pos 1 ≤ℤ e.price)
      × (e.price ≤ℤ pos 10000000)
unfolding execution
execution-Bounds reader f e h = elim (Option-cases (reader.parse_rat f.price)) [
  | inl bad ↦ absurd (none-some (rw (bad, execution) at h))
  | inr (p, good) ↦
      elim (Bool-cases (
        leb_ℤ p (pos 0)
        || ltb_ℤ (pos 10000000) p
        || str_eq f.fill_id ""
        || leb_ℤ f.qty (pos 0)
        || ltb_ℤ (pos 1000000) f.qty
        || not f.has_times)) [
          | inl bad ↦ absurd (none-some (rw (good, bad, execution) at h))
          | inr fine ↦
              let eq = some-eq (rw (good, fine, execution) at h) in
              let (a, b, c, d) =
                six_of (leb_ℤ p (pos 0)) (ltb_ℤ (pos 10000000) p) (str_eq f.fill_id "")
                  (leb_ℤ f.qty (pos 0)) (ltb_ℤ (pos 1000000) f.qty) (not f.has_times) fine in
              rw (← eq) (
                int_above f.qty c,
                int_below (pos 1000000) f.qty d,
                refl,
                refl,
                int_above p a,
                int_below (pos 10000000) p b,
              )
        ]
]
  where
    six_of :
        (a b c d e f : Bool)
        → (a || b || c || d || e || f) ≡ false
        → (a ≡ false) × (b ≡ false) × (d ≡ false) × (e ≡ false)
    six_of a b c d e f h = ground arith

    int_above : (x : ℤ) → leb_ℤ x (pos 0) ≡ false → pos 1 ≤ℤ x
    int_above x h = ground arith

    int_below : (y x : ℤ) → ltb_ℤ y x ≡ false → x ≤ℤ y
    int_below y x h = ltb-ge _ _ h

check_fills-Good :
    (reader : Reader) (side : Side) (ids : List String) (total : ℤ) (fs : List LedgerFill)
    (seen : List String) (sum : ℤ)
    → check_fills reader side ids total fs ≡ ok (seen, sum)
    → All (GoodFill reader side) fs
      × Apart ids fs
      × (total_of total fs ≡ sum)
      × (seen_behind ids fs ≡ seen)
unfolding check_fills
check_fills-Good reader side ids total [] seen sum h = (
  tt,
  tt,
  ap (λ (p : List String × ℤ). p.1) (ok-eq h),
  ap (λ (p : List String × ℤ). p.0) (ok-eq h),
)
check_fills-Good reader side ids total (f ∷ fs) seen sum h =
    elim (Bool-cases (member f.fill_id ids || not (same_side f.side side))) [
      | inl bad ↦ absurd (refuted (rw (bad, check_fills) at h))
      | inr fine ↦ elim (Option-cases (execution reader f)) [
        | inl bad ↦ absurd (refuted (rw (fine, bad, check_fills) at h))
        | inr (e, good) ↦
            let (all, apart, adds, sees) =
              check_fills-Good reader side (f.fill_id ∷ ids) (add64 total f.qty) fs seen sum
                (rw (fine, good, check_fills) at h) in
            let (new, same) = two_of (member f.fill_id ids) (same_side f.side side) fine in
            let (low, high, id, qty, over, under) = execution-Bounds reader f e good in
            (((same, e, good, low, high, id, qty, over, under), all), (new, apart), adds, sees)
      ]
    ]
  where
    two_of : (a b : Bool) → (a || not b) ≡ false → (a ≡ false) × (b ≡ true)
    two_of a b h = ground arith

check_order-Good :
    (reader : Reader) (side : Side) (numbers : List (List ℕ)) (ids seen : List String)
    (o : LedgerOrder)
    → check_order reader side numbers ids o ≡ ok seen
    → (fs : List LedgerFill) × (o.fills ≡ some fs)
      × (has_number (number_of o) numbers ≡ false)
      × All (GoodFill reader side) fs
      × Apart ids fs
      × (eq_ℤ (total_of (pos 0) fs) o.cumulative_qty ≡ true)
      × (seen_behind ids fs ≡ seen)
unfolding check_order
check_order-Good reader side numbers ids seen o h = elim (Option-cases o.fills) [
  | inl nil ↦ absurd (refuted (rw (nil, check_order) at h))
  | inr (fs, is) ↦
      elim (Bool-cases (
        no_codes (number_of o)
        || has_number (number_of o) numbers
        || ltb_ℤ o.cumulative_qty (pos 0))) [
          | inl bad ↦ absurd (refuted (rw (is, bad, check_order) at h))
          | inr fine ↦ elim (Result-cases (check_fills reader side ids (pos 0) fs)) [
            | inr (e, bad) ↦ absurd (refuted (rw (is, fine, bad, check_order) at h))
            | inl ((later, total), good) ↦ elim (Bool-cases (eq_ℤ total o.cumulative_qty)) [
              | inr uneven ↦ absurd (refuted (rw (is, fine, good, uneven, check_order) at h))
              | inl even ↦
                  let (all, apart, adds, sees) =
                    check_fills-Good reader side ids (pos 0) fs later total good in
                  let eq = ok-eq (rw (is, fine, good, even, check_order) at h) in
                  (
                    fs,
                    is,
                    middle_of (no_codes (number_of o)) (has_number (number_of o) numbers)
                        (ltb_ℤ o.cumulative_qty (pos 0)) fine,
                    all,
                    apart,
                    rw adds even,
                    sees ∙ eq,
                  )
            ]
          ]
        ]
]
  where
    middle_of : (a b c : Bool) → (a || b || c) ≡ false → b ≡ false
    middle_of a b c h = ground arith

check_orders-Good :
    (reader : Reader) (side : Side) (numbers : List (List ℕ)) (ids : List String)
    (os : List LedgerOrder)
    → check_orders reader side numbers ids os ≡ none
    → GoodOrders reader side numbers ids os
unfolding check_orders
check_orders-Good reader side numbers ids [] h = tt
check_orders-Good reader side numbers ids (o ∷ os) h =
    elim (Result-cases (check_order reader side numbers ids o)) [
      | inr (e, bad) ↦ absurd (some-none (rw (bad, check_orders) at h))
      | inl (seen, good) ↦
          let (fs, is, new, all, apart, adds, sees) =
            check_order-Good reader side numbers ids seen o good in
          (
            fs,
            is,
            new,
            all,
            apart,
            adds,
            subst (λ (known : List String). GoodOrders reader side (number_of o ∷ numbers) known os)
                (sym sees)
                (check_orders-Good reader side (number_of o ∷ numbers) seen os
                  (rw (good, check_orders) at h)),
          )
    ]

check_snapshot-Good :
    (reader : Reader) (c : Client) (t s : FillsSnapshot)
    → check_snapshot reader c t ≡ ok s
    → (os : List LedgerOrder) × (s.orders ≡ some os)
      × (s.intent_id ≡ c.intent.intent_id)
      × GoodOrders reader c.intent.side [] [] os
unfolding check_snapshot
check_snapshot-Good reader c t s h = elim (Option-cases t.orders) [
  | inl nil ↦ absurd (refuted (rw (nil, check_snapshot) at h))
  | inr (os, is) ↦ elim (Bool-cases (not (str_eq t.intent_id c.intent.intent_id))) [
    | inl other ↦ absurd (refuted (rw (is, other, check_snapshot) at h))
    | inr mine ↦ elim (Option-cases (check_orders reader c.intent.side [] [] os)) [
      | inr (e, bad) ↦ absurd (refuted (rw (is, mine, bad, check_snapshot) at h))
      | inl good ↦
          let same = ok-eq (rw (is, mine, good, check_snapshot) at h) in
          (
            os,
            ap (λ (x : FillsSnapshot). x.orders) (sym same) ∙ is,
            ap (λ (x : FillsSnapshot). x.intent_id) (sym same)
                ∙ str_eq→eq t.intent_id c.intent.intent_id (not-false _ mine),
            check_orders-Good reader c.intent.side [] [] os good,
          )
    ]
  ]
]
  where
    not-false : (b : Bool) → not b ≡ false → b ≡ true
    not-false b k = ground arith

-- A snapshot that Fills returns is of the intent of the client and has orders, each with another
-- number; their fills are on the side of the intent, each has another identifier, a quantity from 1 to
-- 1000000 and a price of whole won from 1 to 10000000; and the fills of an order add up to its
-- quantity, as int64 adds them.
pub read_fills-GoodOrders :
    (reader : Reader) (c : Client) (s : FillsSnapshot)
    → read_fills reader c ≡ ok s
    → (os : List LedgerOrder) × (s.orders ≡ some os)
      × (s.intent_id ≡ c.intent.intent_id)
      × GoodOrders reader c.intent.side [] [] os
unfolding read_fills
read_fills-GoodOrders reader c s h = elim (Result-cases (read_text reader c "/fills")) [
  | inr (e, bad) ↦ absurd (refuted (rw (bad, read_fills) at h))
  | inl (body, read) ↦ elim (Option-cases (reader.decode_fills body)) [
    | inl bad ↦ absurd (refuted (rw (read, bad, read_fills) at h))
    | inr (t, decoded) ↦ check_snapshot-Good reader c t s (rw (read, decoded, read_fills) at h)
  ]
]
