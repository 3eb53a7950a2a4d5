-- ===== src/Exec/State.antt =====
-- internal/exec/machine.go: the data of the state machine, and the methods of `State` that only
-- read it. The string enumerations are data types with a constructor for every other string; a
-- pointer that may be nil is an `Option`; a `map` is an association list, newest entry first.
use fillwire.Prelude.{
  String, Bool, true, false, not, Option, none, some, List, [], ◌∷◌, if◌then◌else◌, str_eq,
}
use fillwire.Prelude.Int.{ℤ, pos, max_ℤ}
use fillwire.Prelude.Word.{sub64}
use fillwire.Exec.Intent.{Intent}

-- The child actions `submit`, `amend` and `cancel`.
pub data Action : Type 0 where
  submit amend cancel : Action
  other_action : String → Action

pub data Status : Type 0 where
  accepted uncertain sending refused conflict : Status
  other_status : String → Status

pub record Child : Type 0 where
  pub action : Action
  pub intent_id : String
  pub key : String
  pub target_key : String
  pub qty : ℤ
  pub price : ℤ

pub record Outcome : Type 0 where
  pub key : String
  pub status : Status
  pub reason : String
  pub broker_order_id : String

pub record Order : Type 0 where
  pub key : String
  pub price : ℤ
  pub qty : ℤ

pub record View : Type 0 where
  pub order : Option Order
  pub filled_qty : ℤ

pub record Fill : Type 0 where
  pub fill_id : String
  pub key : String
  pub qty : ℤ
  pub price : ℤ
  pub at_ns : ℤ

pub data Kind : Type 0 where
  start send outcome_of reconcile fill_of finish : Kind
  other_kind : String → Kind

-- One journaled transition.
pub record Record : Type 0 where
  pub kind : Kind
  pub defer_finish : Bool
  pub at_ns : ℤ
  pub intent : Option Intent
  pub child : Option Child
  pub reason : String
  pub outcome : Option Outcome
  pub view : Option View
  pub fill : Option Fill

-- `in_flight_status` is `none` where the source has the empty string.
pub record State : Type 0 where
  pub intent : Intent
  pub cap : ℤ
  pub target : ℤ
  pub filled : ℤ
  pub fill_notional : ℤ
  pub fills : List (String × Fill)
  pub broker_filled : ℤ
  pub sent : List Child
  pub order : Option Order
  pub in_flight : Option Child
  pub in_flight_status : Option Status
  pub in_flight_reason : String
  pub last_move_ns : ℤ
  pub halt : String
  pub done : String

-- The finish reasons.
abbrev pub done_filled : String
done_filled = "filled"

abbrev pub done_cap : String
done_cap = "cap"

abbrev pub done_deadline : String
done_deadline = "deadline"

abbrev pub done_killed : String
done_killed = "killed"

abbrev pub done_refused : String
done_refused = "refused"

abbrev pub done_stale_book : String
done_stale_book = "stale_book"

abbrev pub done_e1_caps : String
done_e1_caps = "e1_caps"

abbrev pub is_empty : String → Bool
is_empty s = str_eq s ""

-- `Started`.
abbrev pub started : State → Bool
started s = not (is_empty s.intent.intent_id)

-- `Remaining`.
unfoldable pub remaining : State → ℤ
remaining s = sub64 s.target (max_ℤ s.filled s.broker_filled)

-- `Overfill`.
unfoldable pub overfill : State → ℤ
overfill s = max_ℤ (sub64 s.filled s.target) (pos 0)

-- `sentKey`: the first child sent under the key.
unfoldable pub find_key : String → List Child → Option Child
find_key k [] = none
find_key k (c ∷ cs) = if str_eq c.key k then some c else find_key k cs

abbrev pub sent_key : State → String → Option Child
sent_key s k = find_key k s.sent

-- The lookup of a fill by its id.
unfoldable pub find_fill : String → List (String × Fill) → Option Fill
find_fill k [] = none
find_fill k ((j, f) ∷ fs) = if str_eq j k then some f else find_fill k fs

abbrev pub is_submit : Action → Bool
is_submit submit = true
is_submit _ = false

abbrev pub is_cancel : Action → Bool
is_cancel cancel = true
is_cancel _ = false

-- `c.Action == ActSubmit || c.Action == ActAmend`.
abbrev pub is_opening : Action → Bool
is_opening submit = true
is_opening amend = true
is_opening _ = false

-- None of the three actions.
abbrev pub is_unknown : Action → Bool
is_unknown (other_action _) = true
is_unknown _ = false
