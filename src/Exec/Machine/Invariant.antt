-- ===== src/Exec/Machine/Invariant.antt =====
-- The invariant of the executor's state (internal/exec/machine.go).
use fillwire.Prelude.{
  ◌≡◌, String, true, false, Option, none, some, List, [], ◌∷◌, All, is_none, str_eq,
}
use fillwire.Prelude.Int.{ℤ, pos, ◌≤ℤ◌}
use fillwire.Prelude.Word.{IsInt64, add64, mul64}
use fillwire.Exec.Intent.{Intent, validate, cap, target_qty, worse}
use fillwire.Exec.State.{
  Action, submit, amend, Child, Order, Fill, State, is_empty, find_key, find_fill, is_unknown, View,
}

-- What a submit or an amend of the intent may carry.
abbrev pub CarriesBounds : Action → Intent → Child → Type 0
CarriesBounds submit i c =
    (pos 1 ≤ℤ c.qty)
    × (c.qty ≤ℤ target_qty i)
    × (pos 1 ≤ℤ c.price)
    × (worse i c.price (cap i) ≡ false)
CarriesBounds amend i c =
    (pos 1 ≤ℤ c.qty)
    × (c.qty ≤ℤ target_qty i)
    × (pos 1 ≤ℤ c.price)
    × (worse i c.price (cap i) ≡ false)
CarriesBounds _ i c = Unit

abbrev pub GoodChild : Intent → Child → Type 0
GoodChild i c =
    (str_eq c.intent_id i.intent_id ≡ true)
    × (is_empty c.key ≡ false)
    × (is_unknown c.action ≡ false)
    × CarriesBounds c.action i c

-- No two children have one key.
abbrev pub DistinctKeys : List Child → Type 0
DistinctKeys [] = Unit
DistinctKeys (c ∷ cs) = (is_none (find_key c.key cs) ≡ true) × DistinctKeys cs

-- The working order is known under a key that was sent, and is priced within the cap.
abbrev pub KnownOrder : State → Option Order → Type 0
KnownOrder s none = Unit
KnownOrder s (some o) =
    (is_none (find_key o.key s.sent) ≡ false) × (worse s.intent o.price s.cap ≡ false)

-- The child in flight was sent.
abbrev pub KnownFlight : State → Option Child → Type 0
KnownFlight s none = Unit
KnownFlight s (some c) = find_key c.key s.sent ≡ some c

abbrev pub GoodFill : State → String × Fill → Type 0
GoodFill s (k, f) =
    (k ≡ f.fill_id)
    × (is_empty f.fill_id ≡ false)
    × (pos 1 ≤ℤ f.qty)
    × (pos 1 ≤ℤ f.price)
    × (is_none (find_key f.key s.sent) ≡ false)

abbrev pub DistinctFills : List (String × Fill) → Type 0
DistinctFills [] = Unit
DistinctFills ((k, f) ∷ fs) = (is_none (find_fill k fs) ≡ true) × DistinctFills fs

-- The int64 sums over the ledger fills.
abbrev pub sum_qty : List (String × Fill) → ℤ
sum_qty [] = pos 0
sum_qty ((k, f) ∷ fs) = add64 (sum_qty fs) f.qty

abbrev pub sum_notional : List (String × Fill) → ℤ
sum_notional [] = pos 0
sum_notional ((k, f) ∷ fs) = add64 (sum_notional fs) (mul64 f.qty f.price)

pub record IsValid (s : State) : Type 0 where
  pub intent_valid : validate s.intent ≡ none
  pub cap_of : s.cap ≡ cap s.intent
  pub target_of : s.target ≡ target_qty s.intent
  pub broker_nonneg : pos 0 ≤ℤ s.broker_filled
  pub broker_int64 : IsInt64 s.broker_filled
  pub filled_int64 : IsInt64 s.filled
  pub children : All (GoodChild s.intent) s.sent
  pub keys : DistinctKeys s.sent
  pub order_known : KnownOrder s s.order
  pub flight_known : KnownFlight s s.in_flight
  pub fills_good : All (GoodFill s) s.fills
  pub fills_distinct : DistinctFills s.fills
  pub filled_sum : s.filled ≡ sum_qty s.fills
  pub notional_sum : s.fill_notional ≡ sum_notional s.fills

-- The quantity of a view is an int64, as its field is.
abbrev pub ViewInt64 : Option View → Type 0
ViewInt64 none = Unit
ViewInt64 (some v) = IsInt64 v.filled_qty
