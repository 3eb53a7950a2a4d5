-- ===== src/Exec/E1/Reads.antt =====
-- internal/exec/e1/reads.go: the reads of E1's view and of its fills. What a read comes to is JSON that
-- the parameter `Reader` decodes; `big.Rat` is its `parse_rat`, the integer that a text stands for, if
-- it stands for one. A zero time is a flag; a nil slice is `none`.
pub mod Snapshot
use fillwire.Exec.E1.{
  Client, E1Error, Mode, mode_send, mode_off, mode_dry_run, HttpAnswer, transport_failed,
  unreadable_body, answer, http_status, no_reconcile, str_eq, bad_snapshot, bad_outcome,
  bad_ledger_order, bad_endpoint, post_failed, not, leb_ℤ, ltb, body_failed, quantity_mismatch,
  answer_too_large, fill_conflict, bad_ledger_fill,
}
use fillwire.Exec.State.{Fill, View}
use Prim.Native.String.{◌++◌ as str_append}
use fillwire.Exec.Side.{Side, buy, sell, other_side, is_buy, is_sell}
use fillwire.Exec.Ledger.{normalize, no_codes, codes_eq}
use fillwire.Prelude.{
  ℕ, String, List, [], ◌∷◌, Bool, true, false, Option, some, none, Result, ok, err, str_eq,
  if◌then◌else◌, ◌||◌, not, ltb, ◌==◌, codes,
}
use fillwire.Prelude.Int.{ℤ, pos, leb_ℤ, ltb_ℤ, eq_ℤ}
use fillwire.Prelude.Word.{add64}

-- `LedgerFill`.
pub record LedgerFill : Type 0 where
  pub fill_id : String
  pub side : Side
  pub qty : ℤ
  pub price : String
  pub has_times : Bool
  pub filled_at_ns : ℤ

-- `LedgerOrder`.
pub record LedgerOrder : Type 0 where
  pub broker_order_id : String
  pub cumulative_qty : ℤ
  pub fills : Option (List LedgerFill)

-- `FillsSnapshot`.
pub record FillsSnapshot : Type 0 where
  pub intent_id : String
  pub orders : Option (List LedgerOrder)

-- The answer to a query, with how many children are unresolved.
pub record QueryView : Type 0 where
  pub intent_id : String
  pub reconciled : Bool
  pub view : Option View
  pub unresolved : ℕ

pub record Reader : Type 0 where
  pub parse_rat : String → Option ℤ
  pub decode_fills : String → Option FillsSnapshot
  pub decode_query : String → Option QueryView
  -- What a GET of a URL comes to; `none` where the request does not build.
  pub http_get : String → Option HttpAnswer

abbrev pub max_read_bytes : ℕ
max_read_bytes = 4194304

abbrev pub children_suffix : String
children_suffix = "/children"

-- The text in front of a suffix, if it ends in it.
unfoldable pub trim_suffix : String → String → Option String
trim_suffix suffix String.[] = if str_eq suffix "" then some "" else none
trim_suffix suffix (String.◌∷◌ c s) =
    let rest = trim_suffix suffix s in
    if str_eq (String.◌∷◌ c s) suffix
    then some ""
    else elim rest [ none ↦ none | some t ↦ some (String.◌∷◌ c t) ]

abbrev pub member : String → List String → Bool
member x [] = false
member x (y ∷ ys) = str_eq y x || member x ys

abbrev pub same_side : Side → Side → Bool
same_side buy s = is_buy s
same_side sell s = is_sell s
same_side (other_side a) (other_side b) = str_eq a b
same_side (other_side a) buy = false
same_side (other_side a) sell = false

abbrev pub number_of : LedgerOrder → List ℕ
number_of o = normalize (codes o.broker_order_id)

abbrev pub has_number : List ℕ → List (List ℕ) → Bool
has_number x [] = false
has_number x (y ∷ ys) = codes_eq y x || has_number x ys

module _ (reader : Reader) where
  -- `Execution`.
  unfoldable pub execution : LedgerFill → Option Fill
  execution f = elim (reader.parse_rat f.price) [
    | none ↦ none
    | some p ↦
        if leb_ℤ p (pos 0)
          || ltb_ℤ (pos 10000000) p
          || str_eq f.fill_id ""
          || leb_ℤ f.qty (pos 0)
          || ltb_ℤ (pos 1000000) f.qty
          || not f.has_times
        then none
        else some (record {
          fill_id = f.fill_id;
          key = "";
          qty = f.qty;
          price = p;
          at_ns = f.filled_at_ns;
        })
  ]

  -- `read`: the text of the answer.
  unfoldable pub read_text : Client → String → Result E1Error String
  unfolding trim_suffix
  read_text c suffix = elim c.mode [
    | mode_off ↦ err no_reconcile
    | mode_dry_run ↦ err no_reconcile
    | mode_send ↦ elim (trim_suffix children_suffix c.url) [
      | none ↦ err no_reconcile
      | some base ↦
          elim (reader.http_get
            (str_append base (str_append "/intents/" (str_append c.intent.intent_id suffix)))) [
              | none ↦ err bad_endpoint
              | some transport_failed ↦ err post_failed
              | some unreadable_body ↦ err body_failed
              | some (answer status size body) ↦
                  if not (status == 200)
                  then err (http_status status)
                  else if ltb max_read_bytes size
                  then err answer_too_large
                  else ok body
            ]
    ]
  ]

  -- The loop over the fills of an order, from a total on, with the identifiers that were seen.
  unfoldable pub check_fills :
      Side → List String → ℤ → List LedgerFill → Result E1Error (List String × ℤ)
  unfolding execution
  check_fills side ids total [] = ok (ids, total)
  check_fills side ids total (f ∷ fs) =
      let rest = check_fills side (f.fill_id ∷ ids) (add64 total f.qty) fs in
      if member f.fill_id ids || not (same_side f.side side)
      then err fill_conflict
      else elim (execution f) [ none ↦ err bad_ledger_fill | some e ↦ rest ]

  -- The checks of an order, with the order numbers and the identifiers that were seen.
  unfoldable pub check_order :
      Side → List (List ℕ) → List String → LedgerOrder → Result E1Error (List String)
  unfolding check_fills
  check_order side numbers ids o = elim o.fills [
    | none ↦ err bad_ledger_order
    | some fs ↦
        if no_codes (number_of o)
          || has_number (number_of o) numbers
          || ltb_ℤ o.cumulative_qty (pos 0)
        then err bad_ledger_order
        else elim (check_fills side ids (pos 0) fs) [
          | err e ↦ err e
          | ok (seen, total) ↦
              if eq_ℤ total o.cumulative_qty then ok seen else err quantity_mismatch
        ]
  ]

  -- The loop over the orders.
  unfoldable pub check_orders :
      Side → List (List ℕ) → List String → List LedgerOrder → Option E1Error
  unfolding check_order
  check_orders side numbers ids [] = none
  check_orders side numbers ids (o ∷ os) = elim (check_order side numbers ids o) [
    | err e ↦ some e
    | ok seen ↦ check_orders side (number_of o ∷ numbers) seen os
  ]

  -- `Fills`, of a snapshot that decodes.
  unfoldable pub check_snapshot : Client → FillsSnapshot → Result E1Error FillsSnapshot
  unfolding check_orders
  check_snapshot c s = elim s.orders [
    | none ↦ err bad_snapshot
    | some os ↦
        if not (str_eq s.intent_id c.intent.intent_id)
        then err bad_snapshot
        else elim (check_orders c.intent.side [] [] os) [ some e ↦ err e | none ↦ ok s ]
  ]

  -- `Fills`.
  unfoldable pub read_fills : Client → Result E1Error FillsSnapshot
  unfolding check_snapshot read_text
  read_fills c = elim (read_text c "/fills") [
    | err e ↦ err e
    | ok body ↦ elim (reader.decode_fills body) [
      | none ↦ err bad_outcome
      | some s ↦ check_snapshot c s
    ]
  ]

  abbrev pub usable_view : String → QueryView → Option View
  usable_view intent_id s = elim s.view [
    | none ↦ none
    | some v ↦
        if not (str_eq s.intent_id intent_id)
          || not s.reconciled
          || ltb 0 s.unresolved
          || ltb_ℤ v.filled_qty (pos 0)
        then none
        else some v
  ]

  -- `query`.
  unfoldable pub read_query : Client → String → Result E1Error View
  unfolding read_text
  read_query c intent_id =
      if not (str_eq intent_id c.intent.intent_id)
      then err no_reconcile
      else elim (read_text c "") [
        | err e ↦ err e
        | ok body ↦ elim (reader.decode_query body) [
          | none ↦ err bad_outcome
          | some s ↦ elim (usable_view intent_id s) [ none ↦ err no_reconcile | some v ↦ ok v ]
        ]
      ]
