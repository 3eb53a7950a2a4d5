-- ===== src/Sink/Acks.antt =====
-- What DeliverOnce of internal/sink/sink.go acknowledges and posts.
use fillwire.Sink.{
  deliver_once, deliver_fills, deliver_results, deliver_ack, confirmed_ids, is_confirmed, fills_of,
  is_fill_message, non_fill_ids, fill_messages, count_non_fills, SinkError, PostError,
}
use fillwire.Sink.Client.{IngestResult, Response, Reply, post, PostError}
use fillwire.Stream.{Message, Queue}
use fillwire.Decode.Notice.{Ws}
use fillwire.Decode.Record.{FillRecord}
use fillwire.Prelude.{
  refl, String, List, [], ◌∷◌, Option, some, none, ok, err, ◌≡◌, inl, inr, ◌⊎◌, ◌↔◌, true, Result,
  Bool, Any, some-eq, ok-eq, false, Bool-cases, Result-cases, Option-cases, not, ltb, subst, length,
  ◌==◌, Any-append, if◌then◌else◌, str_eq, str_eq→eq,
}
use fillwire.Prelude.Int.{ℤ}

-- The identifier is the one of a message whose frame is no fill.
abbrev pub Skipped : Ws → List Message → String → Type 0
Skipped ws ms id = Any (λ (m : Message). (is_fill_message ws m ≡ false) × (m.id ≡ id)) ms

-- The statuses of a fill that the ledger holds.
abbrev pub IsSuccess : String → Type 0
IsSuccess status = (status ≡ "inserted") ⊎ (status ≡ "updated") ⊎ (status ≡ "unchanged")

-- The identifier is the one of a message whose result, at the same position, is a success.
abbrev pub Confirmed : List IngestResult → List Message → String → Type 0
Confirmed [] ms id = ⊥
Confirmed (r ∷ rs) [] id = ⊥
Confirmed (r ∷ rs) (m ∷ ms) id = (IsSuccess r.status × (m.id ≡ id)) ⊎ Confirmed rs ms id

-- The fills were posted and answered, and the answer confirms the identifier.
abbrev pub Answered : (List FillRecord → Reply) → List Message → String → Type 0
Answered request fills id =
    (response : Response) × (post request (fills_of fills) ≡ ok response)
    × Confirmed response.results fills id

abbrev pub Named : String → List String → Type 0
Named id ids = Any (λ (i : String). i ≡ id) ids

stuck : {b : Bool} → b ≡ true → b ≡ false → ⊥
stuck h k = cc

non_fill_ids-Skipped :
    (ws : Ws) (ms : List Message) (id : String) → Named id (non_fill_ids ws ms) ↔ Skipped ws ms id
unfolding non_fill_ids
non_fill_ids-Skipped ws [] id = (λ h. h, λ h. h)
non_fill_ids-Skipped ws (m ∷ ms) id =
    let (to, back) = non_fill_ids-Skipped ws ms id in
    elim (Bool-cases (is_fill_message ws m)) [
      | inl fill ↦
          rw (fill, non_fill_ids)
            (λ h. inr (to h), λ h. elim h [ inl p ↦ absurd (stuck refl p.0) | inr k ↦ back k ])
      | inr other ↦
          rw (other, non_fill_ids)
            (
              λ h. elim h [ inl p ↦ inl (refl, p) | inr k ↦ inr (to k) ],
              λ h. elim h [ inl p ↦ inl p.1 | inr k ↦ inr (back k) ],
            )
    ]

no_ids :
    {e : SinkError} {ids : List String}
    → ◌≡◌ {A = Result SinkError (List String)} (err e) (ok ids)
    → ⊥
no_ids h = cc

IsSuccess-confirmed : (s : String) → IsSuccess s → is_confirmed s ≡ some true
IsSuccess-confirmed s (inl h) = rw h refl
IsSuccess-confirmed s (inr (inl h)) = rw h refl
IsSuccess-confirmed s (inr (inr h)) = rw h refl

confirmed-IsSuccess : (s : String) → is_confirmed s ≡ some true → IsSuccess s
confirmed-IsSuccess s h = elim (Bool-cases (str_eq s "inserted")) [
  | inl a ↦ inl (str_eq→eq s "inserted" a)
  | inr a ↦ elim (Bool-cases (str_eq s "updated")) [
    | inl b ↦ inr (inl (str_eq→eq s "updated" b))
    | inr b ↦ elim (Bool-cases (str_eq s "unchanged")) [
      | inl c ↦ inr (inr (str_eq→eq s "unchanged" c))
      | inr c ↦ absurd (stuck_rest (str_eq s "rejected") (rw (a, b, c) at h))
    ]
  ]
]
  where
    stuck_rest : (b : Bool) → ◌≡◌ {A = Option Bool} (if b then some false else none) (some true) → ⊥
    stuck_rest true k = cc
    stuck_rest false k = cc

differ : {o : Option Bool} → o ≡ some false → o ≡ some true → ⊥
differ h k = cc

none-some : {ids : List String} → ◌≡◌ {A = Option (List String)} none (some ids) → ⊥
none-some h = cc

no_message : (rs : List IngestResult) (id : String) → Confirmed rs [] id → ⊥
no_message [] id h = h
no_message (r ∷ rs) id h = h

confirmed_ids-Confirmed :
    (rs : List IngestResult) (ms : List Message) (ids : List String) (id : String)
    → confirmed_ids rs ms ≡ ok ids
    → Named id ids ↔ Confirmed rs ms id
unfolding confirmed_ids
confirmed_ids-Confirmed [] ms ids id h = rw (← ok-eq h) (λ k. k, λ k. k)
confirmed_ids-Confirmed (r ∷ rs) [] ids id h = rw (← ok-eq h) (λ k. k, λ k. k)
confirmed_ids-Confirmed (r ∷ rs) (m ∷ ms) ids id h = elim (Option-cases (is_confirmed r.status)) [
  | inl unknown ↦ absurd (no_ids (rw (unknown, confirmed_ids) at h))
  | inr (false, lost) ↦
      let (to, back) = confirmed_ids-Confirmed rs ms ids id (rw (lost, confirmed_ids) at h) in
      (
        λ k. inr (to k),
        λ k. elim k [
          | inl p ↦ absurd (differ lost (IsSuccess-confirmed r.status p.0))
          | inr q ↦ back q
        ],
      )
  | inr (true, taken) ↦ elim (Result-cases (confirmed_ids rs ms)) [
    | inr (e, bad) ↦ absurd (no_ids (rw (taken, bad, confirmed_ids) at h))
    | inl (is, good) ↦
        let (to, back) = confirmed_ids-Confirmed rs ms is id good in
        let eq = ok-eq (rw (taken, good, confirmed_ids) at h) in
        rw (← eq) (
          λ k. elim k [ inl p ↦ inl (confirmed-IsSuccess r.status taken, p) | inr q ↦ inr (to q) ],
          λ k. elim k [ inl p ↦ inl p.1 | inr q ↦ inr (back q) ],
        )
  ]
]

-- A message is settled by the batch.
abbrev pub Settled : Ws → (List FillRecord → Reply) → List Message → String → Type 0
Settled ws request ms id = Skipped ws ms id ⊎ Answered request (fill_messages ws ms) id

module _ (ws : Ws) (request : List FillRecord → Reply) (xack : List String → Option ℤ) where
  deliver_results-acked :
      (skipped : List String) (fills : List Message) (response : Response) (q : Queue)
      (ids : List String) (id : String)
      → (deliver_results ws request xack skipped fills response q).acked ≡ some ids
      → Named id ids ↔ (Named id skipped ⊎ Confirmed response.results fills id)
  unfolding deliver_results deliver_ack
  deliver_results-acked skipped fills response q ids id h =
      elim (Bool-cases (not (length response.results == length fills))) [
        | inl uneven ↦ absurd (none-some (rw (uneven, deliver_results) at h))
        | inr even ↦ elim (Result-cases (confirmed_ids response.results fills)) [
          | inr (e, bad) ↦ absurd (none-some (rw (even, bad, deliver_results) at h))
          | inl (is, good) ↦
              let (to, back) = confirmed_ids-Confirmed response.results fills is id good in
              let (part, whole) = Any-append (λ (i : String). i ≡ id) skipped is in
              rw (← some-eq (rw (even, good, deliver_results) at h)) (
                λ k. elim (part k) [ inl s ↦ inl s | inr c ↦ inr (to c) ],
                λ k. whole (elim k [ inl s ↦ inl s | inr c ↦ inr (back c) ]),
              )
        ]
      ]

  deliver_fills-acked :
      (skipped : List String) (fills : List Message) (q : Queue) (ids : List String) (id : String)
      → (deliver_fills ws request xack skipped fills q).acked ≡ some ids
      → Named id ids ↔ (Named id skipped ⊎ Answered request fills id)
  unfolding deliver_fills deliver_ack
  deliver_fills-acked skipped [] q ids id h = rw (← some-eq h) (
    λ k. inl k,
    λ k. elim k [ inl p ↦ p | inr (response, good, c) ↦ absurd (no_message response.results id c) ],
  )
  deliver_fills-acked skipped (m ∷ ms) q ids id h =
      elim (Result-cases (post request (fills_of (m ∷ ms)))) [
        | inr (e, bad) ↦ absurd (none-some (rw (bad, deliver_fills) at h))
        | inl (response, good) ↦
            let (to, back) =
              deliver_results-acked skipped (m ∷ ms) response q ids id
                (rw (good, deliver_fills) at h) in
            (
              λ k. elim (to k) [ inl s ↦ inl s | inr c ↦ inr (response, good, c) ],
              λ k. back (elim k [
                | inl s ↦ inl s
                | inr (other, too, c) ↦ inr (
                    subst (λ (o : Response). Confirmed o.results (m ∷ ms) id)
                      (one_response too good) c)
              ]),
            )
      ]
    where
      one_response : {a b : Response} {r : Result PostError Response} → r ≡ ok a → r ≡ ok b → a ≡ b
      one_response h k = cc

  -- A call of DeliverOnce that acknowledges some identifiers acknowledges exactly these: those of the
  -- messages whose stored frame is no fill, and those of the fills for which the answer to the post
  -- has a success at their position.
  pub deliver_once-acked :
      (ms : List Message) (q : Queue) (ids : List String) (id : String)
      → (deliver_once ws request xack ms q).acked ≡ some ids
      → Named id ids ↔ Settled ws request ms id
  unfolding deliver_once
  deliver_once-acked [] q ids id h = absurd (none-some h)
  deliver_once-acked (m ∷ ms) q ids id h = elim (Bool-cases (ltb 200 (length (m ∷ ms)))) [
    | inl large ↦ absurd (none-some (rw (large, deliver_once) at h))
    | inr fits ↦
        let skipped = non_fill_ids ws (m ∷ ms) in
        let (to, back) =
          deliver_fills-acked skipped (fill_messages ws (m ∷ ms)) (count_non_fills ws skipped q) ids
            id (rw (fits, deliver_once) at h) in
        let (gone, kept) = non_fill_ids-Skipped ws (m ∷ ms) id in
        (
          λ k. elim (to k) [ inl s ↦ inl (gone s) | inr a ↦ inr a ],
          λ k. back (elim k [ inl s ↦ inl (kept s) | inr a ↦ inr a ]),
        )
  ]
