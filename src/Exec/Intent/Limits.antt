-- ===== src/Exec/Intent/Limits.antt =====
-- The limits of an accepted intent (internal/exec/intent.go).
use fillwire.Prelude.{
  ℕ, ◌*◌, ◌/◌, ◌^◌, ◌≤◌, ◌<◌, ◌≡◌, true, false, none, arith, first_error-none→AllPass, AllPass,
  or_else-none, if◌then◌else◌, Bool-cases, inl, inr,
}
use fillwire.Prelude.Int.{
  ℤ, pos, pos_part, neg_part, ◌≤ℤ◌, ltb_ℤ, ◌-ℤ◌, neg_part_of_nonneg, max_ℤ, min_ℤ, pos_of_nonneg,
}
use fillwire.Exec.Side.{is_buy}
use fillwire.Exec.Intent.{
  Intent, cap, target_qty, inventory_room, validate, field_checks, quantity_checks, outside, ltb_ℤ,
  worse, max_ℤ, floor_tick, ceil_tick, min_ℤ,
}
use fillwire.Exec.Tick.Grid.{IsGrid, floor_tick_bounds, ceil_tick_bounds}
use fillwire.Prelude.Word.{sub64_parts, quot64-pos}
use fillwire.Exec.Tick.{floor_tick, ceil_tick}

validate-fields : (i : Intent) → validate i ≡ none → AllPass (field_checks i)
unfolding validate
validate-fields i h = first_error-none→AllPass (field_checks i) (or_else-none _ _ h).0

validate-quantities : (i : Intent) → validate i ≡ none → AllPass (quantity_checks i)
unfolding validate
validate-quantities i h = first_error-none→AllPass (quantity_checks i) (or_else-none _ _ h).1

-- The numbers of an accepted intent lie in the bounds of E1.
pub record InBounds (i : Intent) : Type 0 where
  pub quantity : (pos 1 ≤ℤ i.max_quantity) × (i.max_quantity ≤ℤ pos 1000000)
  pub notional : (pos 1 ≤ℤ i.max_notional_krw) × (i.max_notional_krw ≤ℤ pos 5000000)
  pub limit : (pos 1 ≤ℤ i.limit_price_krw) × (i.limit_price_krw ≤ℤ pos 10000000)
  pub position :
      (pos 0 ≤ℤ i.inventory.position_at_authorization)
      × (i.inventory.position_at_authorization ≤ℤ pos 1000000000)
  pub least :
      (pos 0 ≤ℤ i.inventory.min_position_after) × (i.inventory.min_position_after ≤ℤ pos 1000000000)
  pub most :
      (pos 0 ≤ℤ i.inventory.max_position_after) × (i.inventory.max_position_after ≤ℤ pos 1000000000)
  pub cap_pos : pos 1 ≤ℤ cap i
  pub target_pos : pos 1 ≤ℤ target_qty i

outside-false : (low high v : ℤ) → outside low high v ≡ false → (low ≤ℤ v) × (v ≤ℤ high)
outside-false low high v h = (ground arith, ground arith)

ltb_ℤ-false : (a b : ℤ) → ltb_ℤ a b ≡ false → b ≤ℤ a
ltb_ℤ-false a b h = ground arith

pub validate-InBounds : (i : Intent) → validate i ≡ none → InBounds i
unfolding field_checks quantity_checks
validate-InBounds i h =
    let f = validate-fields i h in
    let q = validate-quantities i h in
    let inv = i.inventory in
    record {
      quantity = outside-false (pos 1) (pos 1000000) i.max_quantity f.1.1.1.1.1.1.1.0;
      notional = outside-false (pos 1) (pos 5000000) i.max_notional_krw f.1.1.1.1.1.1.1.1.0;
      limit = outside-false (pos 1) (pos 10000000) i.limit_price_krw f.1.1.1.1.1.1.1.1.1.0;
      position = outside-false (pos 0) (pos 1000000000) inv.position_at_authorization q.0;
      least = outside-false (pos 0) (pos 1000000000) inv.min_position_after q.1.0;
      most = outside-false (pos 0) (pos 1000000000) inv.max_position_after q.1.1.0;
      cap_pos = ltb_ℤ-false (cap i) (pos 1) q.1.1.1.1.0;
      target_pos = ltb_ℤ-false (target_qty i) (pos 1) q.1.1.1.1.1.0;
    }

-- The cap against the limit price: on the grid, not worse than the limit, and not far from it.
abbrev pub GoodCap : Intent → ℤ → Type 0
GoodCap i c = IsGrid c × (worse i c i.limit_price_krw ≡ false) × (pos 1 ≤ℤ c) × (c ≤ℤ pos 10000999)

cap-floor : (i : Intent) → is_buy i.side ≡ true → cap i ≡ floor_tick i.limit_price_krw
unfolding cap
cap-floor i b = rw b

cap-ceil : (i : Intent) → is_buy i.side ≡ false → cap i ≡ ceil_tick i.limit_price_krw
unfolding cap
cap-ceil i b = rw b

cap-GoodCap :
    (i : Intent) (l : ℕ)
    → i.limit_price_krw ≡ pos l
    → 1 ≤ l
    → l ≤ 10000000
    → pos 1 ≤ℤ cap i
    → GoodCap i (cap i)
cap-GoodCap i l e h k c =
    let (fg, fl, fp) = floor_tick_bounds l h (omega arith) in
    let (cg, cl, cp) = ceil_tick_bounds l h (omega arith) in
    elim (Bool-cases (is_buy i.side)) [
      | inl b ↦
          rw (cap-floor i b, e) (fg, rw b (ground arith), rw (cap-floor i b, e) at c, omega arith)
      | inr b ↦
          rw (cap-ceil i b, e) (cg, rw b (ground arith), rw (cap-ceil i b, e) at c, omega arith)
    ]

-- The room that the inventory leaves, over the integers.
abbrev pub exact_room : Intent → ℤ
exact_room i =
    if is_buy i.side
    then i.inventory.max_position_after -ℤ i.inventory.position_at_authorization
    else i.inventory.position_at_authorization -ℤ i.inventory.min_position_after

inventory_room-exact : (i : Intent) → InBounds i → inventory_room i ≡ exact_room i
unfolding inventory_room
inventory_room-exact i h =
    let inv = i.inventory in
    let p : neg_part inv.position_at_authorization ≡ 0 = neg_part_of_nonneg _ h.position.0 in
    let l : neg_part inv.min_position_after ≡ 0 = neg_part_of_nonneg _ h.least.0 in
    let m : neg_part inv.max_position_after ≡ 0 = neg_part_of_nonneg _ h.most.0 in
    elim (Bool-cases (is_buy i.side)) [
      | inl b ↦ rw b (
          sub64_parts inv.max_position_after inv.position_at_authorization (omega arith)
            (omega arith))
      | inr b ↦ rw b (
          sub64_parts inv.position_at_authorization inv.min_position_after (omega arith)
            (omega arith))
    ]

div_mul_le : (q n c : ℕ) → q ≤ n / c → q * c ≤ n
div_mul_le q n c h = grind arith

-- The target of an intent, from its cap and the room of its inventory.
target_of : (q n c : ℕ) (room : ℤ) → ℤ
target_of q n c room = max_ℤ (min_ℤ (min_ℤ (pos q) (pos (n / c))) room) (pos 0)

target_of_bounds :
    (q n c : ℕ) (room : ℤ)
    → pos 1 ≤ℤ target_of q n c room
    → (target_of q n c room ≤ℤ pos q)
      × (target_of q n c room ≤ℤ room)
      × (pos_part (target_of q n c room) ≤ n / c)
unfolding target_of
target_of_bounds q n c room h = (ground arith, ground arith, ground arith)

target_qty-target_of :
    (i : Intent) (q n c : ℕ)
    → i.max_quantity ≡ pos q
    → i.max_notional_krw ≡ pos n
    → cap i ≡ pos c
    → 1 ≤ c
    → n < 2 ^ 63
    → target_qty i ≡ target_of q n c (inventory_room i)
unfolding target_qty target_of
target_qty-target_of i q n c eq en ec h k = simp (eq, en, ec, quot64-pos n c k) (ground arith)

-- The target against its bounds: at most the quantity, within the room of the inventory, and
-- within the notional at the cap.
abbrev pub GoodTarget : Intent → ℤ → Type 0
GoodTarget i t =
    (pos 1 ≤ℤ t)
    × (t ≤ℤ i.max_quantity)
    × (t ≤ℤ exact_room i)
    × (pos_part t * pos_part (cap i) ≤ pos_part i.max_notional_krw)

target_qty-GoodTarget : (i : Intent) → InBounds i → GoodTarget i (target_qty i)
target_qty-GoodTarget i h =
    let q = pos_part i.max_quantity in
    let n = pos_part i.max_notional_krw in
    let c = pos_part (cap i) in
    let eq = pos_of_nonneg i.max_quantity (omega arith) in
    let en = pos_of_nonneg i.max_notional_krw (omega arith) in
    let ec = pos_of_nonneg (cap i) (omega arith) in
    let t =
      target_qty-target_of i q n c eq en ec (omega arith)
        (omega (arith, neg_part_of_nonneg i.max_notional_krw)) in
    let (a, b, d) = target_of_bounds q n c (inventory_room i) (rw t at h.target_pos) in
    (
      h.target_pos,
      rw t (omega (arith, a, neg_part_of_nonneg i.max_quantity)),
      rw (t, ← inventory_room-exact i h) b,
      rw t (div_mul_le _ n c d),
    )

-- An intent that `Validate` accepts has a cap on the tick grid, of 1 or more, that is not worse
-- than its limit price; and a target of 1 or more that is within its quantity, leaves the position
-- in the inventory range, and costs at most its notional at the cap.
pub validate-GoodLimits :
    (i : Intent) → validate i ≡ none → GoodCap i (cap i) × GoodTarget i (target_qty i)
validate-GoodLimits i h =
    let b = validate-InBounds i h in
    (
      cap-GoodCap i (pos_part i.limit_price_krw) (pos_of_nonneg i.limit_price_krw (omega arith))
          (omega arith) (omega (arith, neg_part_of_nonneg i.limit_price_krw)) b.cap_pos,
      target_qty-GoodTarget i b,
    )
