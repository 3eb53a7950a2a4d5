-- ===== src/Exec/Intent.antt =====
-- internal/exec/intent.go: the approved intent, its bounds, its cap and its target quantity.
pub mod Pattern
pub mod Limits
use Prim.Native.String.{len}
use fillwire.Prelude.{
  ℕ, String, Bool, true, false, not, ◌&&◌, ◌||◌, Option, none, some, List, [], ◌∷◌, ◌==◌, ltb,
  if◌then◌else◌, str_eq, is_none, first_error, or_else,
}
use fillwire.Prelude.Int.{ℤ, pos, negsuc, ltb_ℤ, eq_ℤ, min_ℤ, max_ℤ}
use fillwire.Prelude.Word.{sub64, quot64}
use fillwire.Exec.Side.{Side, is_buy, is_sell}
use fillwire.Exec.Tick.{floor_tick, ceil_tick}
use Pattern.{is_uuid, is_krx_symbol, is_reference}

-- `time.Time`: the instant, in seconds and nanoseconds since the Unix epoch.
pub record Time : Type 0 where
  pub seconds : ℤ
  pub nanos : ℕ

-- `Time.IsZero`: the first of January of the year 1, UTC.
abbrev pub is_zero : Time → Bool
is_zero t = eq_ℤ t.seconds (negsuc 62135596799) && t.nanos == 0

pub record Inventory : Type 0 where
  pub position_at_authorization : ℤ
  pub min_position_after : ℤ
  pub max_position_after : ℤ

pub record Intent : Type 0 where
  pub schema_version : ℤ
  pub intent_id : String
  pub strategy : String
  pub account : String
  pub venue : String
  pub symbol : String
  pub side : Side
  pub max_quantity : ℤ
  pub max_notional_krw : ℤ
  pub limit_price_krw : ℤ
  pub max_slippage_bps : ℤ
  pub expires_at : Time
  pub inventory : Inventory
  pub policy_version : String
  pub model_version : Option String
  pub authorization_ref : String
  pub instrument_type : String

-- The cases in which `Validate` refuses, in the order of its tests.
pub data IntentError : Type 0 where
  bad_schema_version bad_intent_id bad_strategy bad_account bad_venue bad_symbol : IntentError
  bad_side bad_max_quantity bad_max_notional bad_limit_price bad_slippage : IntentError
  no_expiry bad_policy_version bad_model_version bad_authorization_ref : IntentError
  bad_instrument_type bad_inventory inverted_inventory no_tick_price no_quantity : IntentError

abbrev pub max_intent_notional_krw : ℤ
max_intent_notional_krw = pos 5000000

abbrev pub max_intent_quantity : ℤ
max_intent_quantity = pos 1000000

abbrev pub max_limit_price_krw : ℤ
max_limit_price_krw = pos 10000000

abbrev pub max_slippage : ℤ
max_slippage = pos 500

abbrev pub max_position : ℤ
max_position = pos 1000000000

-- `Cap`.
unfoldable pub cap : Intent → ℤ
cap i = if is_buy i.side then floor_tick i.limit_price_krw else ceil_tick i.limit_price_krw

-- What the inventory leaves to buy or to sell.
unfoldable pub inventory_room : Intent → ℤ
inventory_room i =
    let inv = i.inventory in
    if is_buy i.side
    then sub64 inv.max_position_after inv.position_at_authorization
    else sub64 inv.position_at_authorization inv.min_position_after

-- `TargetQty`.
unfoldable pub target_qty : Intent → ℤ
target_qty i =
    let c = cap i in
    let q =
      if ltb_ℤ (pos 0) c
      then min_ℤ i.max_quantity (quot64 i.max_notional_krw c)
      else i.max_quantity in
    max_ℤ (min_ℤ q (inventory_room i)) (pos 0)

-- `worse`: higher for a buy, lower for a sell.
abbrev pub worse : Intent → ℤ → ℤ → Bool
worse i a b = if is_buy i.side then ltb_ℤ b a else ltb_ℤ a b

-- `v < low || v > high`.
abbrev pub outside : ℤ → ℤ → ℤ → Bool
outside low high v = ltb_ℤ v low || ltb_ℤ high v

-- The `switch` of `Validate`.
unfoldable pub field_checks : Intent → List (Bool × IntentError)
field_checks i =
    (not (eq_ℤ i.schema_version (pos 1)), bad_schema_version)
    ∷ (not (is_uuid i.intent_id), bad_intent_id)
    ∷ (str_eq i.strategy "" || ltb 128 (len i.strategy), bad_strategy)
    ∷ (not (str_eq i.account "kis_mock"), bad_account)
    ∷ (not (str_eq i.venue "krx"), bad_venue)
    ∷ (not (is_krx_symbol i.symbol), bad_symbol)
    ∷ (not (is_buy i.side) && not (is_sell i.side), bad_side)
    ∷ (outside (pos 1) max_intent_quantity i.max_quantity, bad_max_quantity)
    ∷ (outside (pos 1) max_intent_notional_krw i.max_notional_krw, bad_max_notional)
    ∷ (outside (pos 1) max_limit_price_krw i.limit_price_krw, bad_limit_price)
    ∷ (outside (pos 0) max_slippage i.max_slippage_bps, bad_slippage)
    ∷ (is_zero i.expires_at, no_expiry)
    ∷ (not (is_reference i.policy_version), bad_policy_version)
    ∷ (elim i.model_version [ none ↦ false | some v ↦ not (is_reference v) ], bad_model_version)
    ∷ (not (is_reference i.authorization_ref), bad_authorization_ref)
    ∷ (
      not (str_eq i.instrument_type "") && not (str_eq i.instrument_type "krx_equity"),
      bad_instrument_type,
    )
    ∷ []

-- The tests of `Validate` on the inventory and on what is left to work.
unfoldable pub quantity_checks : Intent → List (Bool × IntentError)
quantity_checks i =
    let inv = i.inventory in
    (outside (pos 0) max_position inv.position_at_authorization, bad_inventory)
    ∷ (outside (pos 0) max_position inv.min_position_after, bad_inventory)
    ∷ (outside (pos 0) max_position inv.max_position_after, bad_inventory)
    ∷ (ltb_ℤ inv.max_position_after inv.min_position_after, inverted_inventory)
    ∷ (ltb_ℤ (cap i) (pos 1), no_tick_price)
    ∷ (ltb_ℤ (target_qty i) (pos 1), no_quantity)
    ∷ []

-- `Validate`; `none` is the nil error.
unfoldable pub validate : Intent → Option IntentError
validate i = or_else (first_error (field_checks i)) (first_error (quantity_checks i))
