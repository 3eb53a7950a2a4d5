-- ===== src/Exec/E1/Accepts.antt =====
-- What the client of E1 takes for accepted (internal/exec/e1/client.go).
use fillwire.Exec.E1.{
  E1Env, Client, Request, Mode, mode_send, E1Error, send_child_request, send_mode, send_post,
  child_request, mock_account, Sent, to_exec, GatewayOutcome, not, Bool, str_eq, uncertain,
  read_answer, parse_outcome, other_status, HttpAnswer, Action, with_status, no_status_given,
  answer, max_answer_bytes, ltb, transport_failed, unreadable_body, local_answer, is_cancel,
}
use fillwire.Exec.State.{
  Child, Outcome, Status, accepted, refused, cancel, uncertain, Action, sending, other_action,
  conflict, submit, amend, is_cancel,
}
use fillwire.Prelude.{
  ℕ, refl, String, some, Result, ok, err, ◌≡◌, true, false, Bool-cases, Option-cases, Result-cases,
  sym, not, inr, inl, Bool, ◌∙◌, str_eq, ok-eq, arith, ap, ◌⊎◌, ◌||◌, subst, ◌≤◌, ◌==◌, ltb, ltb-ge,
}

refuted : {A : Type 0} {e : E1Error} {a : A} → ◌≡◌ {A = Result E1Error A} (err e) (ok a) → ⊥
refuted h = cc

-- Whether a status is `accepted`.
abbrev is_accepted : Status → Bool
is_accepted accepted = true
is_accepted uncertain = false
is_accepted sending = false
is_accepted refused = false
is_accepted conflict = false
is_accepted (other_status s) = false

lie : false ≡ true → ⊥
lie h = cc

is_cancel-eq : (a : Action) → is_cancel a ≡ true → a ≡ cancel
is_cancel-eq submit h = absurd (lie h)
is_cancel-eq amend h = absurd (lie h)
is_cancel-eq cancel h = refl
is_cancel-eq (other_action s) h = absurd (lie h)

with_status-accepted :
    (env : E1Env) (s : Status) (ch : Child) (out : Outcome)
    → out.status ≡ uncertain
    → (with_status env s ch out).status ≡ accepted
    → (s ≡ accepted)
      × ((str_eq out.broker_order_id "" ≡ false) ⊎ (ch.action ≡ cancel))
      × ((with_status env s ch out).broker_order_id ≡ out.broker_order_id)
      × ((with_status env s ch out).key ≡ out.key)
with_status-accepted env accepted ch out held h =
    elim (Bool-cases (not (str_eq out.broker_order_id "") || is_cancel ch.action)) [
      | inl fine ↦ rw fine (refl, either fine, refl, refl)
      | inr bad ↦ absurd (hold (ap (λ (x : Status). is_accepted x) (rw bad at h)))
    ]
  where
    hold : is_accepted out.status ≡ true → ⊥
    hold k = lie (sym (ap is_accepted held) ∙ k)

    either :
        (not (str_eq out.broker_order_id "") || is_cancel ch.action) ≡ true
        → (str_eq out.broker_order_id "" ≡ false) ⊎ (ch.action ≡ cancel)
    either k = elim (Bool-cases (str_eq out.broker_order_id "")) [
      | inr full ↦ inl full
      | inl empty ↦ inr (is_cancel-eq ch.action (rw empty at k))
    ]
with_status-accepted env uncertain ch out held h = absurd (lie (ap is_accepted h))
with_status-accepted env sending ch out held h = absurd (lie (ap is_accepted h))
with_status-accepted env refused ch out held h = absurd (lie (ap is_accepted h))
with_status-accepted env conflict ch out held h = absurd (lie (ap is_accepted h))
with_status-accepted env (other_status s) ch out held h =
    absurd (lie (sym (ap is_accepted held) ∙ ap is_accepted h))

-- What an answer has that leads to an accepted outcome.
abbrev pub Confirmed : E1Env → Child → Outcome → HttpAnswer → Type 0
Confirmed env ch out a =
    (size : ℕ) × (body : String) × (o : GatewayOutcome) × (a ≡ answer 200 size body)
    × (size ≤ max_answer_bytes)
    × (env.decode_outcome body ≡ some o)
    × (o.status ≡ accepted)
    × ((str_eq out.broker_order_id "" ≡ false) ⊎ (ch.action ≡ cancel))
    × (out.key ≡ ch.key)

parse_outcome-ok :
    (env : E1Env) (body : String) (o : GatewayOutcome)
    → parse_outcome env body ≡ ok o
    → env.decode_outcome body ≡ some o
unfolding parse_outcome
parse_outcome-ok env body o h = elim (Option-cases (env.decode_outcome body)) [
  | inl bad ↦ absurd (refuted (rw (bad, parse_outcome) at h))
  | inr (p, good) ↦ elim (Bool-cases (no_status_given env p.status)) [
    | inl none_given ↦ absurd (refuted (rw (good, none_given, parse_outcome) at h))
    | inr given ↦
        good ∙ ap (λ (x : GatewayOutcome). some x) (ok-eq (rw (good, given, parse_outcome) at h))
  ]
]

read_answer-Confirmed :
    (env : E1Env) (ch : Child) (a : HttpAnswer) (out : Outcome)
    → read_answer env ch a ≡ ok out
    → out.status ≡ accepted
    → Confirmed env ch out a
unfolding read_answer to_exec
read_answer-Confirmed env ch transport_failed out h k = absurd (refuted h)
read_answer-Confirmed env ch unreadable_body out h k = absurd (refuted h)
read_answer-Confirmed env ch (answer status size body) out h k =
    elim (Bool-cases (not (status == 200))) [
      | inl other ↦ absurd (refuted (rw (other, read_answer) at h))
      | inr good ↦ elim (Bool-cases (ltb max_answer_bytes size)) [
        | inl large ↦ absurd (refuted (rw (good, large, read_answer) at h))
        | inr small ↦ elim (Result-cases (parse_outcome env body)) [
          | inr (e, bad) ↦ absurd (refuted (rw (good, small, bad, read_answer) at h))
          | inl (o, parsed) ↦
              let is : to_exec env o ch ≡ out =
                ok-eq (rw (good, small, parsed, read_answer) at h) in
              let (says, confirms, id, key) =
                with_status-accepted env o.status ch _ refl
                  (ap (λ (x : Outcome). x.status) is ∙ k) in
              (
                size,
                body,
                o,
                ap (λ (n : ℕ). answer n size body) (is_equal status good),
                ltb-ge max_answer_bytes size small,
                parse_outcome-ok env body o parsed,
                says,
                subst
                    (λ (x : Outcome). (str_eq x.broker_order_id "" ≡ false) ⊎ (ch.action ≡ cancel))
                    is (rw id confirms),
                ap (λ (x : Outcome). x.key) (sym is) ∙ key,
              )
        ]
      ]
    ]
  where
    is_equal : (n : ℕ) → not (n == 200) ≡ false → n ≡ 200
    is_equal n h = ground arith

-- A local answer is refused.
local-refused :
    (env : E1Env) (ch : Child) (text : String) (out : Outcome)
    → (local_answer env ch text).result ≡ ok out
    → out.status ≡ accepted
    → ⊥
local-refused env ch text out h k =
    lie (ap (λ (x : Outcome). is_accepted x.status) (ok-eq h) ∙ ap is_accepted k)

-- An accepted outcome of a call that was answered.
abbrev Answered : E1Env → Child → Outcome → Sent → Type 0
Answered env ch out s = (r : Request) × (s.posted ≡ some r) × Confirmed env ch out (env.http_do r)

send_post-Answered :
    (env : E1Env) (c : Client) (ch : Child) (body : String) (out : Outcome)
    → (send_post env c ch body).result ≡ ok out
    → out.status ≡ accepted
    → Answered env ch out (send_post env c ch body)
unfolding send_post
send_post-Answered env c ch body out h k =
    let r = child_request env c ch body in
    elim (Option-cases (env.request_refused r)) [
      | inr (text, bad) ↦ absurd (local-refused env ch text out (rw (bad, send_post) at h) k)
      | inl fine ↦
          rw (fine, send_post)
            (
              r,
              refl,
              read_answer-Confirmed env ch (env.http_do r) out (rw (fine, send_post) at h) k,
            )
    ]

send_mode-Answered :
    (env : E1Env) (c : Client) (ch : Child) (out : Outcome)
    → (send_mode env mode_send c ch).result ≡ ok out
    → out.status ≡ accepted
    → Answered env ch out (send_mode env mode_send c ch)
unfolding send_mode
send_mode-Answered env c ch out h k = elim (Result-cases (env.marshal_child ch)) [
  | inr (text, bad) ↦ absurd (local-refused env ch text out (rw (bad, send_mode) at h) k)
  | inl (body, good) ↦
      rw (good, send_mode) (send_post-Answered env c ch body out (rw (good, send_mode) at h) k)
]

-- In Send mode an accepted outcome means that a request was posted, and was answered with HTTP 200 and
-- a body within the bound, which decodes to an outcome that E1 calls accepted; the outcome has an
-- identifier of the broker or belongs to a cancel, and names the key of the child.
pub send_child_request-accepted :
    (env : E1Env) (c : Client) (ch : Child) (out : Outcome)
    → c.mode ≡ mode_send
    → (send_child_request env c ch).result ≡ ok out
    → out.status ≡ accepted
    → (r : Request) × ((send_child_request env c ch).posted ≡ some r)
      × Confirmed env ch out (env.http_do r)
unfolding send_child_request
send_child_request-accepted env c ch out mode h k =
    elim (Bool-cases
      (not (str_eq c.account mock_account) || not (str_eq c.intent.account mock_account))) [
        | inl other ↦ absurd (
            local-refused env ch "account not kis_mock" out (rw (other, send_child_request) at h) k)
        | inr mock ↦ elim (Bool-cases (not (str_eq ch.intent_id c.intent.intent_id))) [
          | inl another ↦
              absurd (local-refused env ch _ out (rw (mock, another, send_child_request) at h) k)
          | inr same ↦
              rw (mock, same, send_child_request)
                (subst (λ (m : Mode). Answered env ch out (send_mode env m c ch)) (sym mode)
                  (send_mode-Answered env c ch out
                    (subst (λ (m : Mode). (send_mode env m c ch).result ≡ ok out) mode
                      (rw (mock, same, send_child_request) at h))
                    k))
        ]
      ]
