-- ===== src/Decode/Record/Fills.antt =====
-- The records that internal/decode/decode.go makes of notices.
use fillwire.Decode.Notice.{
  Execution, Ws, notice_fill, notice_order, notice_rejected, notice_canceled, notice_unknown,
  classify_notice, check_execution_matches_frame, field_at, idx_symbol, idx_cntg_qty, idx_cntg_unpr,
  idx_cntg_hour, min_notice_fields, NoticeKind, idx_order_no, idx_cntg_yn, frame_side, idx_side,
}
use fillwire.Decode.Record.{
  Event, FillRecord, Decoder, decode, decode_execution, drop_checks, observe_fill, combine_kst_date,
  is_fill, fill_record, order_no_of, derive_fill_seq, ℕ, str_eq, List, Bool, true, false,
  first_error, not, ltb, dropped_count, Counters, non_fill_count, observe, leb,
}
use fillwire.Prelude.{
  refl, String, Option, some, none, ◌≡◌, arith, ℕ, str_eq, List, Bool, ◌&&◌, true, false, ◌⊎◌,
  first_error-none→AllPass, ◌^◌, str_eq→eq, first_error, Option-cases, Bool-cases, not, inr, inl,
  subst, some-eq, ltb, length, leb, ◌<◌,
}
use fillwire.Prelude.Int.{ℤ, pos, ◌<ℤ◌}
use fillwire.Decode.Counters.{Counters, inc_non_fill, inc_dropped, atomic_add}
use fillwire.Decode.Duplicate.{observe, DuplicateKey, DuplicateTracker, count_of}

-- What a record says of the event that it was made of.
abbrev pub GoodRecord : Ws → Event → FillRecord → Type 0
GoodRecord ws e r =
    (classify_notice ws r.raw_payload_json.tr r.raw_payload_json.fields ≡ notice_fill)
    × (r.raw_payload_json.tr ≡ e.tr)
    × (r.raw_payload_json.fields ≡ e.fields)
    × (str_eq r.broker_order_id "" ≡ false)
    × (str_eq r.symbol "" ≡ false)
    × ((r.side ≡ ws.side_buy) ⊎ (r.side ≡ ws.side_sell))
    × (r.raw_symbol ≡ field_at idx_symbol e.fields)
    × (r.filled_qty ≡ field_at idx_cntg_qty e.fields)
    × (r.filled_price ≡ field_at idx_cntg_unpr e.fields)
    × (combine_kst_date e.received_at (field_at idx_cntg_hour e.fields) ≡ some r.filled_at)
    × (r.fill_seq <ℤ pos (2 ^ 31))
    × (r.dup_suspect ≡ leb 2 r.dup_observation_count)
    × (r.dup_observation_count < 2 ^ 64)

pub is_fill-eq : (k : NoticeKind) → is_fill k ≡ true → k ≡ notice_fill
is_fill-eq notice_fill h = refl
is_fill-eq notice_order h = cc
is_fill-eq notice_rejected h = cc
is_fill-eq notice_canceled h = cc
is_fill-eq notice_unknown h = cc

-- The fields that an execution has in common with its frame.
abbrev Matched : Execution → List String → Type 0
Matched x fields =
    (x.symbol ≡ field_at idx_symbol fields)
    × (x.qty ≡ field_at idx_cntg_qty fields)
    × (x.price ≡ field_at idx_cntg_unpr fields)
    × (x.filled_at ≡ field_at idx_cntg_hour fields)

not-false : (b : Bool) → not b ≡ false → b ≡ true
not-false b h = ground arith

four_of :
    (a b c d e f g h : Bool)
    → (a && b && c && d && e && f && g && h) ≡ true
    → (c ≡ true) × (d ≡ true) × (e ≡ true) × (f ≡ true)
four_of a b c d e f g h eq = ground arith

check-Matched :
    (ws : Ws) (x : Execution) (fields : List String)
    → check_execution_matches_frame ws x fields ≡ true
    → Matched x fields
unfolding check_execution_matches_frame
check-Matched ws x fields h =
    let (symbol, qty, price, hour) =
      four_of (not (ltb (length fields) min_notice_fields))
        (str_eq x.order_no (field_at idx_order_no fields)) _ _ _ _
        (str_eq x.filled (field_at idx_cntg_yn fields))
        (str_eq x.side (frame_side ws (field_at idx_side fields))) h in
    (str_eq→eq _ _ symbol, str_eq→eq _ _ qty, str_eq→eq _ _ price, str_eq→eq _ _ hour)

observe-less : (k : DuplicateKey) (t : DuplicateTracker) → (observe k t).0 < 2 ^ 64
unfolding observe
observe-less k t = elim (Option-cases (count_of k t.counts)) [
  | inl new ↦ rw (new, observe) (omega arith)
  | inr (n, seen) ↦ rw (seen, observe) (omega arith)
]

module _ (ws : Ws) (digest : String → ℕ) (to_upper : String → String) where
  fill_record-Good :
      (d : Decoder) (x : Execution) (e : Event) (t : ℤ) (n : ℕ)
      → is_fill (classify_notice ws e.tr e.fields) ≡ true
      → first_error (drop_checks ws digest to_upper x e) ≡ none
      → combine_kst_date e.received_at x.filled_at ≡ some t
      → n < 2 ^ 64
      → GoodRecord ws e (fill_record ws digest to_upper d x e t n)
  fill_record-Good d x e t n fill fine time small =
      let (matches, (order, (symbol, (qty, (price, (side, _)))))) =
        first_error-none→AllPass (drop_checks ws digest to_upper x e) fine in
      let (s, q, p, h) = check-Matched ws x e.fields (not-false _ matches) in
      (
        is_fill-eq _ fill,
        refl,
        refl,
        order,
        symbol,
        one_side side,
        s,
        q,
        p,
        subst (λ (text : String). combine_kst_date e.received_at text ≡ some t) h time,
        omega arith,
        refl,
        small,
      )
    where
      one_side :
          (not (str_eq x.side ws.side_buy) && not (str_eq x.side ws.side_sell)) ≡ false
          → (x.side ≡ ws.side_buy) ⊎ (x.side ≡ ws.side_sell)
      one_side h = elim (Bool-cases (str_eq x.side ws.side_buy)) [
        | inl buy ↦ inl (str_eq→eq _ _ buy)
        | inr other ↦ inr (str_eq→eq x.side ws.side_sell (not-false _ (rw other at h)))
      ]

  observe_fill-record :
      (x : Execution) (e : Event) (t : ℤ) (d : Decoder)
      → (n : ℕ) × (n < 2 ^ 64)
        × ((observe_fill ws digest to_upper x e t d).0
            ≡ some (fill_record ws digest to_upper d x e t n))
  unfolding observe_fill
  observe_fill-record x e t d =
      let k : DuplicateKey = record {
        order_no = order_no_of ws digest to_upper x;
        fill_seq = derive_fill_seq ws digest to_upper e.fields;
      } in
      (_, observe-less k d.duplicates, refl)

refuted : {r : FillRecord} → ◌≡◌ {A = Option FillRecord} none (some r) → ⊥
refuted h = cc

decode_execution-GoodRecord :
    (ws : Ws) (digest : String → ℕ) (to_upper : String → String) (x : Execution) (e : Event)
    (d : Decoder) (r : FillRecord)
    → (decode_execution ws digest to_upper x e d).0 ≡ some r
    → GoodRecord ws e r
unfolding decode_execution
decode_execution-GoodRecord ws digest to_upper x e d r h =
    elim (Bool-cases (is_fill (classify_notice ws e.tr e.fields))) [
      | inr other ↦ absurd (refuted (rw (other, decode_execution) at h))
      | inl fill ↦ elim (Option-cases (first_error (drop_checks ws digest to_upper x e))) [
        | inr (why, bad) ↦ absurd (refuted (rw (fill, bad, decode_execution) at h))
        | inl fine ↦ elim (Option-cases (combine_kst_date e.received_at x.filled_at)) [
          | inl bad ↦ absurd (refuted (rw (fill, fine, bad, decode_execution) at h))
          | inr (t, time) ↦
              let (n, small, made) = observe_fill-record ws digest to_upper x e t d in
              let same = some-eq (rw (made) at (rw (fill, fine, time, decode_execution) at h)) in
              subst (GoodRecord ws e) same
                (fill_record-Good ws digest to_upper d x e t n fill fine time small)
        ]
      ]
    ]

-- A record that Decode returns is made of a notice that classifies as a fill, whose transaction and
-- fields it keeps. It has an order, a symbol, and a side of the two; its quantity, its price and its
-- symbol as received are the fields of the notice, its time is the one of the clock in the notice, its
-- sequence is below 2^31, and it is suspected a duplicate when it was observed twice or more.
pub decode-GoodRecord :
    (ws : Ws) (digest : String → ℕ) (to_upper : String → String) (e : Event) (d : Decoder)
    (r : FillRecord)
    → (decode ws digest to_upper e d).0 ≡ some r
    → GoodRecord ws e r
unfolding decode decode_execution
decode-GoodRecord ws digest to_upper e d r h = elim (Option-cases e.execution) [
  | inl nil ↦ absurd (refuted (rw (nil, decode) at h))
  | inr (x, is) ↦ decode_execution-GoodRecord ws digest to_upper x e d r (rw (is, decode) at h)
]

-- What a call of Decode counts: the record, one drop, or one notice that is no fill.
abbrev pub Counted : Decoder → Option FillRecord × Decoder → Type 0
Counted d (o, d') =
    ((r : FillRecord) × (o ≡ some r)
      × (dropped_count d' ≡ dropped_count d)
      × (non_fill_count d' ≡ non_fill_count d))
    ⊎ ((o ≡ none)
        × (dropped_count d' ≡ atomic_add (dropped_count d) 1)
        × (non_fill_count d' ≡ non_fill_count d))
    ⊎ ((o ≡ none)
        × (dropped_count d' ≡ dropped_count d)
        × (non_fill_count d' ≡ atomic_add (non_fill_count d) 1))

non_fill-Counted :
    (k : NoticeKind) (d : Decoder) (c : Counters)
    → is_fill k ≡ false
    → d.counters ≡ some c
    → Counted d (none, record d { counters = inc_non_fill k d.counters })
non_fill-Counted notice_fill d c other has = absurd (stuck other)
  where
    stuck : true ≡ false → ⊥
    stuck h = cc
non_fill-Counted notice_order d c other has = rw has (inr (inr (refl, refl, omega arith)))
non_fill-Counted notice_rejected d c other has = rw has (inr (inr (refl, refl, omega arith)))
non_fill-Counted notice_canceled d c other has = rw has (inr (inr (refl, refl, omega arith)))
non_fill-Counted notice_unknown d c other has = rw has (inr (inr (refl, refl, omega arith)))

drop-Counted :
    (d : Decoder) (c : Counters)
    → d.counters ≡ some c
    → Counted d (none, record d { counters = inc_dropped d.counters })
drop-Counted d c has = rw has (inr (inl (refl, refl, refl)))

observe_fill-Counted :
    (ws : Ws) (digest : String → ℕ) (to_upper : String → String) (x : Execution) (e : Event) (t : ℤ)
    (d : Decoder) (c : Counters)
    → d.counters ≡ some c
    → Counted d (observe_fill ws digest to_upper x e t d)
unfolding observe_fill
observe_fill-Counted ws digest to_upper x e t d c has =
    let n =
      (observe
        (record {
          order_no = order_no_of ws digest to_upper x;
          fill_seq = derive_fill_seq ws digest to_upper e.fields;
        })
        d.duplicates).0 in
    elim (Bool-cases (leb 2 n)) [
      | inl twice ↦ rw (twice, observe_fill) (rw has (inl (_, refl, refl, refl)))
      | inr once ↦ rw (once, observe_fill) (inl (_, refl, refl, refl))
    ]

decode_execution-Counted :
    (ws : Ws) (digest : String → ℕ) (to_upper : String → String) (x : Execution) (e : Event)
    (d : Decoder) (c : Counters)
    → d.counters ≡ some c
    → Counted d (decode_execution ws digest to_upper x e d)
unfolding decode_execution
decode_execution-Counted ws digest to_upper x e d c has =
    elim (Bool-cases (is_fill (classify_notice ws e.tr e.fields))) [
      | inr other ↦
          rw (other, decode_execution)
            (non_fill-Counted (classify_notice ws e.tr e.fields) d c other has)
      | inl fill ↦ elim (Option-cases (first_error (drop_checks ws digest to_upper x e))) [
        | inr (why, bad) ↦ rw (fill, bad, decode_execution) (drop-Counted d c has)
        | inl fine ↦ elim (Option-cases (combine_kst_date e.received_at x.filled_at)) [
          | inl bad ↦ rw (fill, fine, bad, decode_execution) (drop-Counted d c has)
          | inr (t, time) ↦
              rw (fill, fine, time, decode_execution)
                (observe_fill-Counted ws digest to_upper x e t d c has)
        ]
      ]
    ]

-- A decoder with counters, and an event with an execution: Decode returns a record and counts neither
-- a drop nor a notice that is no fill, or it returns none and counts exactly one of both, modulo 2^64.
pub decode-Counted :
    (ws : Ws) (digest : String → ℕ) (to_upper : String → String) (e : Event) (d : Decoder)
    (x : Execution) (c : Counters)
    → e.execution ≡ some x
    → d.counters ≡ some c
    → Counted d (decode ws digest to_upper e d)
unfolding decode
decode-Counted ws digest to_upper e d x c is has =
    rw (is, decode) (decode_execution-Counted ws digest to_upper x e d c has)
