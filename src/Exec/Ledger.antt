-- ===== src/Exec/Ledger.antt =====
-- internal/exec/ledger.go: ledger rows are bound to the broker orders that the journal records.
-- A trading day is the number of the KST day; its text form is `time.Format` of the caller.
use fillwire.Prelude.{
  ℕ, ◌+◌, ◌-◌, ◌/◌, String, Bool, true, false, not, ◌&&◌, ◌||◌, Option, none, some, List, [], ◌∷◌,
  if◌then◌else◌, ◌==◌, leb, str_eq, codes, Result, ok, err,
}
use fillwire.Prelude.Strings.{is_space}
use fillwire.Prelude.Int.{ℤ, pos, negsuc, leb_ℤ, eq_ℤ}
use fillwire.Exec.State.{
  Child, Outcome, Fill, Kind, Record, State, Status, accepted, send, outcome_of, is_empty, started,
  find_fill, find_key, is_cancel,
}
use fillwire.Exec.Journal.{
  Codec, Line, Journal, KeysError, no_send, all_zero, multiple_keys, JournalError, unattributed,
  Scan, each_line,
}
use fillwire.Exec.Executor.{attribution_failed, Executor, Env, Answer, on_fill}

-- The list without the leading elements that pass the test.
unfoldable pub trim_left : (ℕ → Bool) → List ℕ → List ℕ
trim_left p [] = []
trim_left p (c ∷ cs) = let rest = trim_left p cs in if p c then rest else c ∷ cs

-- And without the last ones.
unfoldable pub trim_right : (ℕ → Bool) → List ℕ → List ℕ
trim_right p [] = []
trim_right p (c ∷ cs) = elim (trim_right p cs) [
  | [] ↦ if p c then [] else c ∷ []
  | d ∷ ds ↦ c ∷ d ∷ ds
]

-- `strings.TrimSpace`.
unfoldable pub trim_space : List ℕ → List ℕ
unfolding trim_left trim_right
trim_space s = trim_right is_space (trim_left is_space s)

abbrev pub is_zero_digit : ℕ → Bool
is_zero_digit c = c == b'0'

-- `NormalizeOrderNumber`, on the code points of the number.
unfoldable pub normalize : List ℕ → List ℕ
unfolding trim_space
normalize s = trim_left is_zero_digit (trim_space s)

abbrev pub no_codes : List ℕ → Bool
no_codes [] = true
no_codes (c ∷ cs) = false

abbrev pub codes_eq : List ℕ → List ℕ → Bool
codes_eq [] [] = true
codes_eq [] (b ∷ bs) = false
codes_eq (a ∷ as') [] = false
codes_eq (a ∷ as') (b ∷ bs) = a == b && codes_eq as' bs

-- Nanoseconds of a day and of the KST offset.
abbrev pub day_ns : ℕ
day_ns = 86400000000000

-- The calendar day at an instant in KST, counted from the epoch; days before it are negative.
unfoldable pub kst_day : ℤ → ℤ
kst_day (pos n) = pos ((n + 32400000000000) / day_ns)
kst_day (negsuc n) =
    if leb (n + 1) 32400000000000 then pos 0 else negsuc ((n - 32400000000000) / day_ns)

-- `orderDay`.
pub record OrderDay : Type 0 where
  pub number : List ℕ
  pub day : ℤ

-- `orderIdentity`.
unfoldable pub order_identity : String → ℤ → OrderDay
unfolding normalize kst_day
order_identity number at_ns = record { number = normalize (codes number); day = kst_day at_ns }

abbrev pub same_day : OrderDay → OrderDay → Bool
same_day a b = codes_eq a.number b.number && eq_ℤ a.day b.day

-- The two maps of `brokerKeys`: the send records by key, newest first, and the identities.
pub record Keys : Type 0 where
  pub sends : List (String × (ℤ × Child))
  pub keys : List (OrderDay × String)

unfoldable pub find_send : String → List (String × (ℤ × Child)) → Option (ℤ × Child)
find_send k [] = none
find_send k ((j, r) ∷ rs) = if str_eq j k then some r else find_send k rs

unfoldable pub find_identity : OrderDay → List (OrderDay × String) → Option String
find_identity d [] = none
find_identity d ((i, k) ∷ is) = if same_day i d then some k else find_identity d is

-- `keys[id] = key`.
unfoldable pub put_identity :
    OrderDay → String → List (OrderDay × String) → List (OrderDay × String)
put_identity d k [] = (d, k) ∷ []
put_identity d k ((i, j) ∷ is) = if same_day i d then (i, k) ∷ is else (i, j) ∷ put_identity d k is

abbrev pub is_accepted : Status → Bool
is_accepted accepted = true
is_accepted _ = false

-- The identity of an accepted submit or amend enters the map once.
unfoldable pub bind_identity : Keys → OrderDay → String → Result KeysError Keys
unfolding find_identity put_identity
bind_identity ks d k = elim (find_identity d ks.keys) [
  | none ↦ ok (record ks { keys = put_identity d k ks.keys })
  | some previous ↦
      if str_eq previous k
      then ok (record ks { keys = put_identity d k ks.keys })
      else err multiple_keys
]

-- An accepted outcome that names a broker order.
unfoldable pub bind_outcome : Keys → Outcome → Result KeysError Keys
unfolding find_send order_identity bind_identity
bind_outcome ks o = elim (find_send o.key ks.sends) [
  | none ↦ err no_send
  | some (at_ns, c) ↦
      if is_cancel c.action
      then ok ks
      else if no_codes (normalize (codes o.broker_order_id))
      then err all_zero
      else bind_identity ks (order_identity o.broker_order_id at_ns) o.key
]

-- The callback of `brokerKeys` on one record.
unfoldable pub read_record : Keys → Kind → Record → Result KeysError Keys
unfolding bind_outcome
read_record ks send r = elim r.child [
  | none ↦ ok ks
  | some c ↦ ok (record ks { sends = (c.key, (r.at_ns, c)) ∷ ks.sends })
]
read_record ks outcome_of r = elim r.outcome [
  | none ↦ ok ks
  | some o ↦
      if is_accepted o.status && not (no_codes (trim_space (codes o.broker_order_id)))
      then bind_outcome ks o
      else ok ks
]
read_record ks kind r = ok ks

abbrev pub no_keys : Keys
no_keys = record { sends = []; keys = [] }

-- The callback of `brokerKeys`.
unfoldable pub keys_line : Keys → Line → Result JournalError Keys
unfolding read_record
keys_line ks l = elim (read_record ks l.rec.kind l.rec) [
  | err e ↦ err (unattributed e)
  | ok ks' ↦ ok ks'
]

-- `brokerKeys`.
unfoldable pub broker_keys : Codec → Journal → Scan Keys
unfolding keys_line each_line
broker_keys c j = each_line c keys_line j.file no_keys

abbrev pub fill_eq : Fill → Fill → Bool
fill_eq a b =
    str_eq a.fill_id b.fill_id
    && str_eq a.key b.key
    && eq_ℤ a.qty b.qty
    && eq_ℤ a.price b.price
    && eq_ℤ a.at_ns b.at_ns

-- The evidence that `OnLedgerFill` refuses to look at.
abbrev pub is_incomplete : State → String → Fill → Bool
is_incomplete s broker_order_id f =
    not (started s)
    || no_codes (normalize (codes broker_order_id))
    || leb_ℤ f.at_ns (pos 0)
    || is_empty f.fill_id
    || leb_ℤ f.qty (pos 0)
    || leb_ℤ f.price (pos 0)

module _ {W : Type 0} (env : Env W) where
  -- `fail`: the error is latched.
  abbrev fail : Executor → W → Answer env
  fail e w = (some attribution_failed, record e { error = some attribution_failed }, w)

  -- The fill under its journal key, unless a fill of that id is known with other evidence.
  unfoldable pub record_fill : Executor → W → Fill → Answer env
  record_fill e w f = elim (find_fill f.fill_id e.state.fills) [
    | none ↦ on_fill env e w f
    | some previous ↦ if fill_eq previous f then on_fill env e w f else fail e w
  ]

  -- The row bound to the journal key of its broker order.
  unfoldable pub bind_fill : Executor → W → String → Fill → Answer env
  bind_fill e w number f =
      let scan = broker_keys env.codec e.journal in
      elim scan.error [
        | some x ↦ fail e w
        | none ↦ elim (find_identity (order_identity number f.at_ns) scan.value.keys) [
          | none ↦ fail e w
          | some key ↦
              if not (is_empty f.key) && not (str_eq f.key key)
              then fail e w
              else record_fill e w (record f { key = key })
        ]
      ]

  -- `OnLedgerFill`.
  unfoldable pub on_ledger_fill : Executor → W → String → Fill → Answer env
  on_ledger_fill e w number f = elim e.error [
    | some x ↦ (some x, e, w)
    | none ↦ if is_incomplete e.state number f then fail e w else bind_fill e w number f
  ]

-- `BrokerOrder`.
pub record BrokerOrder : Type 0 where
  pub broker_order_id : List ℕ
  pub key : String
  pub trading_day : ℤ
  pub qty : ℤ

-- The loop of `BrokerOrders`, before it sorts by key.
unfoldable pub broker_orders_from :
    List Child → List (OrderDay × String) → Option (List BrokerOrder)
broker_orders_from sent [] = some []
broker_orders_from sent ((d, k) ∷ is) =
    let rest = broker_orders_from sent is in
    elim (find_key k sent) [
      | none ↦ none
      | some c ↦ elim rest [
        | none ↦ none
        | some out ↦
            some (
              record { broker_order_id = d.number; key = k; trading_day = d.day; qty = c.qty }
              ∷ out)
      ]
    ]
