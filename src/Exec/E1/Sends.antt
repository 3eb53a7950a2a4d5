-- ===== src/Exec/E1/Sends.antt =====
-- What the client of E1 sends (internal/exec/e1/client.go).
use fillwire.Exec.E1.{
  E1Env, E1Config, Options, Client, Request, Mode, mode_send, mode_dry_run, mode_off, E1Error,
  bare_client, token_header_of, collides, mode_of, new_e1_client, new_in_mode, with_mode,
  with_token, check_url, send_child_request, send_mode, send_post, send_dry_run, child_request,
  mock_account, confirm_header, header_value, header_name, not, Bool, str_eq, dry_run_line,
}
use fillwire.Exec.State.{Child}
use fillwire.Exec.Intent.{Intent, validate}
use fillwire.Prelude.{
  refl, String, Option, some, none, Result, ok, err, ◌≡◌, true, false, Bool-cases, Option-cases,
  Result-cases, sym, not, inr, inl, Bool, ◌∙◌, str_eq, ok-eq, arith, str_eq→eq, ap, ◌||◌, some-eq,
  Any, subst,
}

refuted : {A : Type 0} {e : E1Error} {a : A} → ◌≡◌ {A = Result E1Error A} (err e) (ok a) → ⊥
refuted h = cc

none-some : {r : Request} → ◌≡◌ {A = Option Request} none (some r) → ⊥
none-some h = cc

not-false : (b : Bool) → not b ≡ false → b ≡ true
not-false b h = ground arith

mode_of-send :
    (cfg : E1Config)
    → mode_of cfg ≡ ok mode_send
    → (cfg.account ≡ mock_account) × (cfg.dry_run ≡ false) × (cfg.send_enabled ≡ true)
unfolding mode_of
mode_of-send cfg h = elim (Bool-cases (not (str_eq cfg.account mock_account))) [
  | inl other ↦ absurd (refuted (rw (other, mode_of) at h))
  | inr mock ↦ elim (Bool-cases cfg.dry_run) [
    | inl dry ↦ absurd (not_dry (rw (mock, dry, mode_of) at h))
    | inr real ↦ elim (Bool-cases cfg.send_enabled) [
      | inl sends ↦ (str_eq→eq cfg.account mock_account (not-false _ mock), real, sends)
      | inr off ↦ absurd (not_off (rw (mock, real, off, mode_of) at h))
    ]
  ]
]
  where
    not_dry : ◌≡◌ {A = Result E1Error Mode} (ok mode_dry_run) (ok mode_send) → ⊥
    not_dry k = cc

    not_off : ◌≡◌ {A = Result E1Error Mode} (ok mode_off) (ok mode_send) → ⊥
    not_off k = cc

-- A client that gets a token keeps the rest.
with_token-keeps :
    (env : E1Env) (cfg : E1Config) (opt : Options) (c c' : Client)
    → with_token env cfg opt c ≡ ok c'
    → (c'.mode ≡ c.mode) × (c'.intent ≡ c.intent) × (c'.url ≡ c.url)
unfolding with_token
with_token-keeps env cfg opt c c' h = elim (Option-cases opt.token) [
  | inl nil ↦ absurd (refuted (rw (nil, with_token) at h))
  | inr (none, bad) ↦ absurd (refuted (rw (bad, with_token) at h))
  | inr (some t, good) ↦ elim (Bool-cases (str_eq t "")) [
    | inl empty ↦ absurd (refuted (rw (good, empty, with_token) at h))
    | inr full ↦ elim (Bool-cases (not (header_value t))) [
      | inl bad ↦ absurd (refuted (rw (good, full, bad, with_token) at h))
      | inr fine ↦
          let eq = ok-eq (rw (good, full, fine, with_token) at h) in
          (
            ap (λ (x : Client). x.mode) (sym eq),
            ap (λ (x : Client). x.intent) (sym eq),
            ap (λ (x : Client). x.url) (sym eq),
          )
    ]
  ]
]

with_mode-keeps :
    (env : E1Env) (m : Mode) (cfg : E1Config) (opt : Options) (c c' : Client)
    → with_mode env m cfg opt c ≡ ok c'
    → (c'.mode ≡ c.mode) × (c'.intent ≡ c.intent)
unfolding with_mode
with_mode-keeps env mode_off cfg opt c c' h =
    let eq = sym (ok-eq h) in (ap (λ (x : Client). x.mode) eq, ap (λ (x : Client). x.intent) eq)
with_mode-keeps env mode_dry_run cfg opt c c' h = elim (Result-cases (check_url env cfg.url)) [
  | inr (e, bad) ↦ absurd (refuted (rw (bad, with_mode) at h))
  | inl (url, good) ↦ elim (Bool-cases (not opt.has_log)) [
    | inl mute ↦ absurd (refuted (rw (good, mute, with_mode) at h))
    | inr logs ↦
        let eq = sym (ok-eq (rw (good, logs, with_mode) at h)) in
        (ap (λ (x : Client). x.mode) eq, ap (λ (x : Client). x.intent) eq)
  ]
]
with_mode-keeps env mode_send cfg opt c c' h = elim (Result-cases (check_url env cfg.url)) [
  | inr (e, bad) ↦ absurd (refuted (rw (bad, with_mode) at h))
  | inl (url, good) ↦
      let (m, i, _) =
        with_token-keeps env cfg opt (record c { url = url }) c' (rw (good, with_mode) at h) in
      (m, i)
]

with_mode-url :
    (env : E1Env) (cfg : E1Config) (opt : Options) (c c' : Client)
    → with_mode env mode_send cfg opt c ≡ ok c'
    → check_url env cfg.url ≡ ok c'.url
unfolding with_mode
with_mode-url env cfg opt c c' h = elim (Result-cases (check_url env cfg.url)) [
  | inr (e, bad) ↦ absurd (refuted (rw (bad, with_mode) at h))
  | inl (url, good) ↦
      let (_, _, u) =
        with_token-keeps env cfg opt (record c { url = url }) c' (rw (good, with_mode) at h) in
      good ∙ ap (λ (x : String). ok x) (sym u)
]

-- What New has checked, behind its mode.
new_in_mode-checks :
    (env : E1Env) (m : Mode) (cfg : E1Config) (i : Intent) (opt : Options) (c : Client)
    → new_in_mode env m cfg i opt ≡ ok c
    → (i.account ≡ mock_account)
      × (validate i ≡ none)
      × (with_mode env m cfg opt (bare_client env m cfg i) ≡ ok c)
unfolding new_in_mode
new_in_mode-checks env m cfg i opt c h = elim (Bool-cases (not (str_eq i.account mock_account))) [
  | inl other ↦ absurd (refuted (rw (other, new_in_mode) at h))
  | inr mock ↦ elim (Option-cases (validate i)) [
    | inr (e, bad) ↦ absurd (refuted (rw (mock, bad, new_in_mode) at h))
    | inl valid ↦ elim (Bool-cases (not (header_name (token_header_of env cfg)))) [
      | inl name ↦ absurd (refuted (rw (mock, valid, name, new_in_mode) at h))
      | inr named ↦
          elim (Bool-cases (collides (env.canonical_header_key (token_header_of env cfg)))) [
            | inl taken ↦ absurd (refuted (rw (mock, valid, named, taken, new_in_mode) at h))
            | inr free ↦ (
              str_eq→eq i.account mock_account (not-false _ mock),
              valid,
              rw (mock, valid, named, free, new_in_mode) at h,
            )
          ]
    ]
  ]
]

send_post-posted :
    (env : E1Env) (c : Client) (ch : Child) (body : String) (r : Request)
    → (send_post env c ch body).posted ≡ some r
    → child_request env c ch body ≡ r
unfolding send_post
send_post-posted env c ch body r h =
    elim (Option-cases (env.request_refused (child_request env c ch body))) [
      | inr (text, bad) ↦ absurd (none-some (rw (bad, send_post) at h))
      | inl fine ↦ some-eq (rw (fine, send_post) at h)
    ]

send_dry_run-posted :
    (env : E1Env) (c : Client) (ch : Child) (body : String) (r : Request)
    → (send_dry_run env c ch body).posted ≡ some r
    → ⊥
unfolding send_dry_run
send_dry_run-posted env c ch body r h =
    elim (Option-cases (env.encode_line (dry_run_line env c ch body))) [
      | inl bad ↦ none-some (rw (bad, send_dry_run) at h)
      | inr (text, good) ↦ elim (Bool-cases (env.log_writes text)) [
        | inl logs ↦ none-some (rw (good, logs, send_dry_run) at h)
        | inr fails ↦ none-some (rw (good, fails, send_dry_run) at h)
      ]
    ]

-- A call that posts does so in Send mode.
send_mode-posted :
    (env : E1Env) (m : Mode) (c : Client) (ch : Child) (r : Request)
    → (send_mode env m c ch).posted ≡ some r
    → (m ≡ mode_send)
      × (body : String) × (env.marshal_child ch ≡ ok body)
      × (child_request env c ch body ≡ r)
unfolding send_mode
send_mode-posted env mode_off c ch r h = absurd (none-some h)
send_mode-posted env mode_dry_run c ch r h = elim (Result-cases (env.marshal_child ch)) [
  | inr (text, bad) ↦ absurd (none-some (rw (bad, send_mode) at h))
  | inl (body, good) ↦ absurd (send_dry_run-posted env c ch body r (rw (good, send_mode) at h))
]
send_mode-posted env mode_send c ch r h = elim (Result-cases (env.marshal_child ch)) [
  | inr (text, bad) ↦ absurd (none-some (rw (bad, send_mode) at h))
  | inl (body, good) ↦
      (refl, body, good, send_post-posted env c ch body r (rw (good, send_mode) at h))
]

-- What a call that posts has checked.
send_child_request-posted :
    (env : E1Env) (c : Client) (ch : Child) (r : Request)
    → (send_child_request env c ch).posted ≡ some r
    → (ch.intent_id ≡ c.intent.intent_id) × ((send_mode env c.mode c ch).posted ≡ some r)
unfolding send_child_request
send_child_request-posted env c ch r h =
    elim (Bool-cases
      (not (str_eq c.account mock_account) || not (str_eq c.intent.account mock_account))) [
        | inl other ↦ absurd (none-some (rw (other, send_child_request) at h))
        | inr mock ↦ elim (Bool-cases (not (str_eq ch.intent_id c.intent.intent_id))) [
          | inl another ↦ absurd (none-some (rw (mock, another, send_child_request) at h))
          | inr same ↦ (
            str_eq→eq ch.intent_id c.intent.intent_id (not-false _ same),
            rw (mock, same, send_child_request) at h,
          )
        ]
      ]

-- A request that a client of New posts: the configuration names the mock account, enables sending and
-- asks for no dry run; the intent is on the mock account and passes Validate; the child is one of this
-- intent; the request goes to the URL that passed the check, carries the child's JSON, and confirms
-- the key of the child.
pub new_e1_client-posted :
    (env : E1Env) (cfg : E1Config) (i : Intent) (opt : Options) (c : Client) (ch : Child)
    (r : Request)
    → new_e1_client env cfg i opt ≡ ok c
    → (send_child_request env c ch).posted ≡ some r
    → (cfg.account ≡ mock_account)
      × (cfg.send_enabled ≡ true)
      × (cfg.dry_run ≡ false)
      × (i.account ≡ mock_account)
      × (validate i ≡ none)
      × (ch.intent_id ≡ i.intent_id)
      × (check_url env cfg.url ≡ ok r.url)
      × (env.marshal_child ch ≡ ok r.body)
      × Any (λ (h : String × String). h ≡ (confirm_header, ch.key)) r.headers
unfolding new_e1_client
new_e1_client-posted env cfg i opt c ch r made posts =
    let (mine, by_mode) = send_child_request-posted env c ch r posts in
    let (sends, body, json, request) = send_mode-posted env c.mode c ch r by_mode in
    elim (Result-cases (mode_of cfg)) [
      | inr (e, bad) ↦ absurd (refuted (rw (bad, new_e1_client) at made))
      | inl (m, good) ↦
          let (mock, valid, built) =
            new_in_mode-checks env m cfg i opt c (rw (good, new_e1_client) at made) in
          let (mode, is) = with_mode-keeps env m cfg opt (bare_client env m cfg i) c built in
          let in_send : m ≡ mode_send = sym mode ∙ sends in
          let (account, real, enabled) =
            mode_of-send cfg (good ∙ ap (λ (x : Mode). ok x) in_send) in
          let sent =
            subst (λ (x : Mode). with_mode env x cfg opt (bare_client env m cfg i) ≡ ok c) in_send
              built in
          let url = with_mode-url env cfg opt (bare_client env m cfg i) c sent in
          rw (← request) (
            account,
            enabled,
            real,
            mock,
            valid,
            mine ∙ ap (λ (x : Intent). x.intent_id) is,
            url,
            json,
            inr (inr (inl refl)),
          )
    ]
