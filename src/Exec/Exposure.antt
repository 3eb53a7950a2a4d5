-- ===== src/Exec/Exposure.antt =====
-- internal/exec/exposure.go: what the intent has put at risk, counted as E1 counts it.
use fillwire.Prelude.{
  ℕ, zero, suc, ◌+◌, String, Bool, true, false, not, ◌||◌, Option, none, some, List, [], ◌∷◌,
  if◌then◌else◌, str_eq, length, first_error,
}
use fillwire.Prelude.Int.{ℤ, pos, ltb_ℤ, min_ℤ, max_ℤ}
use fillwire.Prelude.Word.{add64, sub64, mul64}
use fillwire.Exec.Side.{is_sell}
use fillwire.Exec.Intent.{inventory_room}
use fillwire.Exec.State.{amend, Child, State, is_empty, find_key, is_opening}

pub data Refusal : Type 0 where
  quantity_cap_exceeded notional_cap_exceeded inventory_constraint_exceeded : Refusal

pub record Exposure : Type 0 where
  pub qty : ℤ
  pub notional : ℤ

abbrev pub no_exposure : Exposure
no_exposure = record { qty = pos 0; notional = pos 0 }

-- `map[string]exposure`.
abbrev pub Exposures : Type 0
Exposures = List (String × Exposure)

abbrev pub mem_key : String → List String → Bool
mem_key k [] = false
mem_key k (j ∷ js) = str_eq j k || mem_key k js

-- The loop of `rootOf` with the keys seen. Each round but the last adds a new key of a sent child
-- to them, so `length sent + 1` rounds are enough.
unfoldable pub root_from : ℕ → List String → List Child → String → String
root_from zero seen sent key = key
root_from (suc fuel) seen sent key = elim (mem_key key seen) [
  | true ↦ key
  | false ↦ elim (find_key key sent) [
    | none ↦ key
    | some c ↦ elim (is_empty c.target_key) [
      | true ↦ key
      | false ↦ root_from fuel (key ∷ seen) sent c.target_key
    ]
  ]
]

-- `rootOf`.
unfoldable pub root_of : List Child → String → String
root_of sent key = root_from (length sent + 1) [] sent key

-- The larger of what the lineage counted and what the child carries.
abbrev pub high_water : Exposure → Child → Exposure
high_water e c = record {
  qty = max_ℤ e.qty c.qty;
  notional = max_ℤ e.notional (mul64 c.qty c.price);
}

-- `out[r] = high_water(out[r], c)`.
unfoldable pub raise : String → Child → Exposures → Exposures
raise r c [] = (r, high_water no_exposure c) ∷ []
raise r c ((k, e) ∷ out) = if str_eq k r then (k, high_water e c) ∷ out else (k, e) ∷ raise r c out

-- The loop of `e1Exposure` over the children sent.
unfoldable pub exposure_from : List Child → List Child → Exposures → Exposures
exposure_from sent [] out = out
exposure_from sent (c ∷ cs) out =
    exposure_from sent cs (if is_opening c.action then raise (root_of sent c.key) c out else out)

unfoldable pub e1_exposure : State → Exposures
e1_exposure s = exposure_from s.sent s.sent []

-- The sums over the lineages that the test keeps.
unfoldable pub sum_where : (String → Bool) → Exposures → Exposure → Exposure
sum_where keep [] acc = acc
sum_where keep ((r, e) ∷ out) acc = sum_where keep out (
    if keep r
    then record { qty = add64 acc.qty e.qty; notional = add64 acc.notional e.notional }
    else acc)

-- `e1Room`: the quantity and the notional that a child of the lineage may carry.
unfoldable pub e1_room : State → String → ℤ × ℤ
e1_room s root =
    let others = sum_where (λ r. not (str_eq r root)) (e1_exposure s) no_exposure in
    let limit = min_ℤ s.intent.max_quantity (inventory_room s.intent) in
    (
      max_ℤ (sub64 limit others.qty) (pos 0),
      max_ℤ (sub64 s.intent.max_notional_krw others.notional) (pos 0),
    )

-- The lineage that a child belongs to.
abbrev pub lineage : State → Child → String
lineage s c = elim c.action [ amend ↦ root_of s.sent c.target_key | _ ↦ c.key ]

-- `E1CapsRefusal`; `none` is the empty reason.
unfoldable pub e1_caps_refusal : State → Child → Option Refusal
e1_caps_refusal s c =
    let total = sum_where (λ r. true) (raise (lineage s c) c (e1_exposure s)) no_exposure in
    let inv = s.intent.inventory in
    let position =
      if is_sell s.intent.side
      then sub64 inv.position_at_authorization total.qty
      else add64 inv.position_at_authorization total.qty in
    first_error (
      (ltb_ℤ s.intent.max_quantity total.qty, quantity_cap_exceeded)
      ∷ (ltb_ℤ s.intent.max_notional_krw total.notional, notional_cap_exceeded)
      ∷ (
        ltb_ℤ position inv.min_position_after || ltb_ℤ inv.max_position_after position,
        inventory_constraint_exceeded,
      )
      ∷ [])
