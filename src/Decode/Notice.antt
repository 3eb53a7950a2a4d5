-- ===== src/Decode/Notice.antt =====
-- internal/decode/notice.go: the kind of an execution notice, from its codes. What the code takes of
-- the package `ws` of go-kis is the record Ws; `Execution` has the fields that are read.
use fillwire.Prelude.{
  ℕ, zero, suc, String, List, [], ◌∷◌, Bool, str_eq, if◌then◌else◌, not, ◌||◌, ◌&&◌, ltb, length,
  Option, ◌==◌,
}
use fillwire.Prelude.Int.{ℤ}
use fillwire.Prelude.Strings.{is_space, is_digit, trim_text, trim_left_text}

-- `ws.Execution`.
pub record Execution : Type 0 where
  pub order_no : String
  pub symbol : String
  pub qty : String
  pub price : String
  pub filled_at : String
  pub filled : String
  pub side : String

-- The transactions that are execution notices, the names of the sides, `QtyInt`, and the sign of
-- `PriceRat`, where they do not fail.
pub record Ws : Type 0 where
  pub is_execution : String → Bool
  pub side_buy : String
  pub side_sell : String
  pub side_unknown : String
  pub qty_int : Execution → Option ℤ
  pub price_sign : Execution → Option ℤ

abbrev pub idx_order_no : ℕ
idx_order_no = 2

abbrev pub idx_side : ℕ
idx_side = 4

abbrev pub idx_rctf_cls : ℕ
idx_rctf_cls = 5

abbrev pub idx_symbol : ℕ
idx_symbol = 8

abbrev pub idx_cntg_qty : ℕ
idx_cntg_qty = 9

abbrev pub idx_cntg_unpr : ℕ
idx_cntg_unpr = 10

abbrev pub idx_cntg_hour : ℕ
idx_cntg_hour = 11

abbrev pub idx_rfus_yn : ℕ
idx_rfus_yn = 12

abbrev pub idx_cntg_yn : ℕ
idx_cntg_yn = 13

abbrev pub idx_acpt_yn : ℕ
idx_acpt_yn = 14

abbrev pub min_notice_fields : ℕ
min_notice_fields = 15

pub data NoticeKind : Type 0 where
  notice_fill notice_order notice_rejected notice_canceled notice_unknown : NoticeKind

-- A field; every index that is read is within the notice.
abbrev pub field_at : ℕ → List String → String
field_at i [] = ""
field_at zero (f ∷ fs) = f
field_at (suc i) (f ∷ fs) = field_at i fs

abbrev pub is_zero_char : ℕ → Bool
is_zero_char c = c == 48

-- The code without its leading zeros.
abbrev pub or_zero : String → String
or_zero trimmed = if str_eq trimmed "" then "0" else trimmed

-- `codeField` of a field.
abbrev pub code_of : String → String
code_of field =
    let value = trim_text is_space field in
    if str_eq value "" || not (str_eq (trim_text is_digit value) "")
    then value
    else or_zero (trim_left_text is_zero_char value)

-- `codeField`.
unfoldable pub code_field : List String → ℕ → String
code_field fields index = code_of (field_at index fields)

abbrev pub by_cntg : String → NoticeKind
by_cntg cntg =
    if str_eq cntg "2"
    then notice_fill
    else if str_eq cntg "1"
    then notice_order
    else notice_unknown

abbrev pub by_acpt : String → NoticeKind → NoticeKind
by_acpt acpt next =
    if str_eq acpt "1" || str_eq acpt "2"
    then next
    else if str_eq acpt "3"
    then notice_canceled
    else notice_unknown

abbrev pub by_rctf : String → NoticeKind → NoticeKind
by_rctf rctf next =
    if str_eq rctf "0" || str_eq rctf "1"
    then next
    else if str_eq rctf "2"
    then notice_canceled
    else notice_unknown

abbrev pub by_rfus : String → NoticeKind → NoticeKind
by_rfus rfus next =
    if str_eq rfus "0" then next else if str_eq rfus "1" then notice_rejected else notice_unknown

module _ (ws : Ws) where
  -- `ClassifyNotice`.
  unfoldable pub classify_notice : String → List String → NoticeKind
  unfolding code_field
  classify_notice tr fields =
      if not (ws.is_execution tr) || ltb (length fields) min_notice_fields
      then notice_unknown
      else by_rfus (code_field fields idx_rfus_yn) (
          by_rctf (code_field fields idx_rctf_cls)
            (by_acpt (code_field fields idx_acpt_yn) (by_cntg (code_field fields idx_cntg_yn))))

  -- `frameSide`.
  unfoldable pub frame_side : String → String
  frame_side field =
      let code = trim_text is_space field in
      if str_eq code "01" || str_eq code "1" || str_eq code "S"
      then ws.side_sell
      else if str_eq code "02" || str_eq code "2" || str_eq code "B"
      then ws.side_buy
      else ws.side_unknown

  -- `checkExecutionMatchesFrame`.
  unfoldable pub check_execution_matches_frame : Execution → List String → Bool
  unfolding frame_side
  check_execution_matches_frame x fields =
      not (ltb (length fields) min_notice_fields)
      && str_eq x.order_no (field_at idx_order_no fields)
      && str_eq x.symbol (field_at idx_symbol fields)
      && str_eq x.qty (field_at idx_cntg_qty fields)
      && str_eq x.price (field_at idx_cntg_unpr fields)
      && str_eq x.filled_at (field_at idx_cntg_hour fields)
      && str_eq x.filled (field_at idx_cntg_yn fields)
      && str_eq x.side (frame_side (field_at idx_side fields))
