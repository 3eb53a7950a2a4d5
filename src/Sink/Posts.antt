-- ===== src/Sink/Posts.antt =====
-- What DeliverOnce of internal/sink/sink.go posts.
use fillwire.Sink.{
  deliver_once, deliver_fills, deliver_results, deliver_ack, fills_of, is_fill_message,
  non_fill_ids, fill_messages, count_non_fills, confirmed_ids,
}
use fillwire.Sink.Client.{Response, Reply, post}
use fillwire.Stream.{Message, Queue}
use fillwire.Decode.Notice.{Ws, classify_notice, notice_fill}
use fillwire.Decode.Record.{FillRecord}
use fillwire.Prelude.{
  refl, String, List, [], ◌∷◌, Option, some, none, ◌≡◌, inl, inr, All, length, ◌≤◌, arith, some-eq,
  ap, Bool-cases, suc, not, ltb, Result-cases, ◌==◌, sym, ltb-ge, ◌∙◌,
}
use fillwire.Prelude.Int.{ℤ}
use fillwire.Decode.Record.Fills.{is_fill-eq}

-- The stored frame of the record classifies as a fill.
abbrev pub IsFill : Ws → FillRecord → Type 0
IsFill ws r = classify_notice ws r.raw_payload_json.tr r.raw_payload_json.fields ≡ notice_fill

fill_messages-IsFill :
    (ws : Ws) (ms : List Message) → All (IsFill ws) (fills_of (fill_messages ws ms))
unfolding fill_messages is_fill_message
fill_messages-IsFill ws [] = tt
fill_messages-IsFill ws (m ∷ ms) = elim (Bool-cases (is_fill_message ws m)) [
  | inl fill ↦ rw (fill, fill_messages) (is_fill-eq _ fill, fill_messages-IsFill ws ms)
  | inr other ↦ rw (other, fill_messages) (fill_messages-IsFill ws ms)
]

length-fill_messages : (ws : Ws) (ms : List Message) → length (fill_messages ws ms) ≤ length ms
unfolding fill_messages
length-fill_messages ws [] = omega arith
length-fill_messages ws (m ∷ ms) =
    let shorter = length-fill_messages ws ms in
    elim (Bool-cases (is_fill_message ws m)) [
      | inl fill ↦ rw (fill, fill_messages) (omega arith)
      | inr other ↦ rw (other, fill_messages) (omega arith)
    ]

length-fills_of : (ms : List Message) → length (fills_of ms) ≡ length ms
length-fills_of [] = refl
length-fills_of (m ∷ ms) = ap suc (length-fills_of ms)

none-some : {fs : List FillRecord} → ◌≡◌ {A = Option (List FillRecord)} none (some fs) → ⊥
none-some h = cc

module _ (ws : Ws) (request : List FillRecord → Reply) (xack : List String → Option ℤ) where
  deliver_results-posted :
      (skipped : List String) (fills : List Message) (response : Response) (q : Queue)
      → (deliver_results ws request xack skipped fills response q).posted ≡ some (fills_of fills)
  unfolding deliver_results deliver_ack
  deliver_results-posted skipped fills response q =
      elim (Bool-cases (not (length response.results == length fills))) [
        | inl uneven ↦ rw (uneven, deliver_results) refl
        | inr even ↦ elim (Result-cases (confirmed_ids response.results fills)) [
          | inr (e, bad) ↦ rw (even, bad, deliver_results) refl
          | inl (is, good) ↦ rw (even, good, deliver_results) refl
        ]
      ]

  deliver_fills-posted :
      (skipped : List String) (fills : List Message) (q : Queue) (fs : List FillRecord)
      → (deliver_fills ws request xack skipped fills q).posted ≡ some fs
      → (fs ≡ fills_of fills) × (1 ≤ length fs)
  unfolding deliver_fills deliver_ack
  deliver_fills-posted skipped [] q fs h = absurd (none-some h)
  deliver_fills-posted skipped (m ∷ ms) q fs h =
      let eq : fills_of (m ∷ ms) ≡ fs =
        some-eq (elim (Result-cases (post request (fills_of (m ∷ ms)))) [
          | inr (e, bad) ↦ rw (bad, deliver_fills) at h
          | inl (response, good) ↦
              sym (deliver_results-posted skipped (m ∷ ms) response q)
              ∙ (rw (good, deliver_fills) at h)
        ]) in
      (sym eq, rw (← eq) (omega arith))

  -- A batch that DeliverOnce posts has between 1 and 200 fills, and the stored frame of each of them
  -- classifies as a fill.
  pub deliver_once-posted :
      (ms : List Message) (q : Queue) (fs : List FillRecord)
      → (deliver_once ws request xack ms q).posted ≡ some fs
      → (1 ≤ length fs) × (length fs ≤ 200) × All (IsFill ws) fs
  unfolding deliver_once
  deliver_once-posted [] q fs h = absurd (none-some h)
  deliver_once-posted (m ∷ ms) q fs h = elim (Bool-cases (ltb 200 (length (m ∷ ms)))) [
    | inl large ↦ absurd (none-some (rw (large, deliver_once) at h))
    | inr fits ↦
        let skipped = non_fill_ids ws (m ∷ ms) in
        let fills = fill_messages ws (m ∷ ms) in
        let (is, some_fill) =
          deliver_fills-posted skipped fills (count_non_fills ws skipped q) fs
            (rw (fits, deliver_once) at h) in
        let small = ltb-ge 200 (length (m ∷ ms)) fits in
        (
          some_fill,
          rw is (omega (arith, length-fills_of fills, length-fill_messages ws (m ∷ ms))),
          rw is (fill_messages-IsFill ws (m ∷ ms)),
        )
  ]
