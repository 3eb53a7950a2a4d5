-- ===== src/Exec/E1.antt =====
-- internal/exec/e1/client.go: the client of the order service E1. `net/http`, `net/url`, JSON, `%q` and
-- what a dry run asks for an answer are the parameter E1Env; an error is its kind. A call gives the
-- request that it posts and the line that it logs, if there are any. The size of a body is in bytes.
pub mod Sends
pub mod Accepts
pub mod Reads
mod Tests
use fillwire.NetPolicy.{Net, is_loopback_host}
use fillwire.Sink.Client.{all_token_chars}
use fillwire.Exec.State.{
  Child, Outcome, Status, accepted, uncertain, sending, refused, conflict, other_status, Action,
  cancel, is_cancel,
}
use fillwire.Exec.Intent.{Intent, IntentError, validate}
use Prim.Native.String.{◌++◌ as str_append}
use fillwire.Prelude.{
  ℕ, String, List, [], ◌∷◌, Bool, true, false, Option, some, none, Result, ok, err, ◌++◌, ◌&&◌,
  str_eq, not, leb, if◌then◌else◌, ◌||◌, ◌==◌, ltb,
}
use fillwire.Prelude.Int.{ℤ, pos, leb_ℤ}
use fillwire.Prelude.Strings.{is_space, trim_text}
use Prim.Native.Char.{code}

-- `MockAccount`.
abbrev pub mock_account : String
mock_account = "kis_mock"

-- `ConfirmHeader`.
abbrev pub confirm_header : String
confirm_header = "X-Execution-Intent-Confirm"

-- `DefaultTokenHeader`.
abbrev pub default_token_header : String
default_token_header = "X-Execution-Intent-Gateway-Token"

-- `maxAnswerBytes`.
abbrev pub max_answer_bytes : ℕ
max_answer_bytes = 65536

pub data E1Error : Type 0 where
  account_not_mock bad_header_name header_collides bad_url no_log no_token_source : E1Error
  token_failed empty_token bad_token no_reconcile no_answer answer_failed post_failed body_failed :
      E1Error
  answer_too_large bad_outcome no_status encode_failed log_failed bad_endpoint : E1Error
  bad_snapshot bad_ledger_order fill_conflict bad_ledger_fill quantity_mismatch : E1Error
  http_status : ℕ → E1Error
  bad_intent : IntentError → E1Error

-- `Mode`.
pub data Mode : Type 0 where
  mode_off mode_dry_run mode_send : Mode

-- `Config`, with the timeout in nanoseconds.
pub record E1Config : Type 0 where
  pub account : String
  pub send_enabled : Bool
  pub dry_run : Bool
  pub url : String
  pub token_header : String
  pub timeout : ℤ

-- `Config.Mode`.
unfoldable pub mode_of : E1Config → Result E1Error Mode
mode_of c =
    if not (str_eq c.account mock_account)
    then err account_not_mock
    else if c.dry_run
    then ok mode_dry_run
    else if c.send_enabled
    then ok mode_send
    else ok mode_off

-- `ExecutorSends`.
unfoldable pub executor_sends : E1Config → Bool
unfolding mode_of
executor_sends c = elim (mode_of c) [
  | err e ↦ false
  | ok mode_off ↦ false
  | ok mode_dry_run ↦ true
  | ok mode_send ↦ true
]

-- `GatewayOutcome`, with the fields that are read.
pub record GatewayOutcome : Type 0 where
  pub status : Status
  pub reason : Option String
  pub broker_order_id : Option String

-- A request that is posted.
pub record Request : Type 0 where
  pub url : String
  pub headers : List (String × String)
  pub body : String

-- `dryRunLine`.
pub record DryRunLine : Type 0 where
  pub url : String
  pub headers : List (String × String)
  pub body : String

-- What `Do` and the reading of the body come to.
pub data HttpAnswer : Type 0 where
  transport_failed unreadable_body : HttpAnswer
  answer : ℕ → ℕ → String → HttpAnswer

-- `url.URL`, with what is read of it; `text` is its `String`.
pub record Url : Type 0 where
  pub scheme : String
  pub has_user : Bool
  pub raw_query : String
  pub force_query : Bool
  pub fragment : String
  pub raw_fragment : String
  pub host : String
  pub hostname : String
  pub opaque_part : String
  pub text : String

pub record E1Env : Type 0 where
  pub net : Net
  pub parse_url : String → Option Url
  pub canonical_header_key : String → String
  pub marshal_child : Child → Result String String
  pub request_refused : Request → Option String
  pub http_do : Request → HttpAnswer
  pub decode_outcome : String → Option GatewayOutcome
  pub encode_line : DryRunLine → Option String
  pub log_writes : String → Bool
  pub quoted : String → String

-- `Options`: `none` where there is no token source; a source that fails gives none.
pub record Options : Type 0 where
  pub token : Option (Option String)
  pub http_timeout : Option ℤ
  pub has_log : Bool
  pub simulated : Option (Child → Option GatewayOutcome)

-- `Client`.
pub record Client : Type 0 where
  pub mode : Mode
  pub account : String
  pub intent : Intent
  pub url : String
  pub header : String
  pub token : String
  pub timeout : ℤ
  pub simulated : Option (Child → Option GatewayOutcome)

-- `headerName`.
abbrev pub header_name : String → Bool
header_name s = not (str_eq s "") && all_token_chars s

abbrev pub visible : String → Bool
visible String.[] = true
visible (String.◌∷◌ c s) = leb 32 (code c) && leb (code c) 126 && visible s

-- `headerValue`.
abbrev pub header_value : String → Bool
header_value s = visible s && str_eq (trim_text is_space s) s

-- The headers that the client sets, or that the transport does.
abbrev pub collides : String → Bool
collides key =
    str_eq key confirm_header
    || str_eq key "Content-Type"
    || str_eq key "Content-Length"
    || str_eq key "Host"
    || str_eq key "Transfer-Encoding"

-- Ten seconds, where no positive timeout is given.
abbrev pub timeout_or_default : ℤ → ℤ
timeout_or_default t = if leb_ℤ t (pos 0) then pos 10000000000 else t

-- What `Send` returns, with what it does outside.
pub record Sent : Type 0 where
  pub result : Result E1Error Outcome
  pub posted : Option Request
  pub logged : Option DryRunLine

module _ (env : E1Env) where
  -- The checks of `checkURL` on a URL that parses.
  abbrev pub url_allowed : Url → Bool
  url_allowed u =
      not u.has_user
      && not (
          not (str_eq u.raw_query "")
          || u.force_query
          || not (str_eq u.fragment "")
          || not (str_eq u.raw_fragment ""))
      && not (str_eq u.host "" || str_eq u.hostname "" || not (str_eq u.opaque_part ""))
      && (str_eq u.scheme "https" || str_eq u.scheme "http" && is_loopback_host env.net u.hostname)

  -- `checkURL`.
  unfoldable pub check_url : String → Result E1Error String
  unfolding is_loopback_host
  check_url raw = elim (env.parse_url raw) [
    | none ↦ err bad_url
    | some u ↦ if url_allowed u then ok u.text else err bad_url
  ]

  abbrev pub token_header_of : E1Config → String
  token_header_of cfg =
      if str_eq cfg.token_header "" then default_token_header else cfg.token_header

  -- The end of `New` in Send mode, for a client with its URL.
  unfoldable pub with_token : E1Config → Options → Client → Result E1Error Client
  with_token cfg opt c = elim opt.token [
    | none ↦ err no_token_source
    | some none ↦ err token_failed
    | some (some token) ↦
        if str_eq token ""
        then err empty_token
        else if not (header_value token)
        then err bad_token
        else ok (record c {
          token = token;
          timeout = timeout_or_default (elim opt.http_timeout [ none ↦ cfg.timeout | some t ↦ t ]);
        })
  ]

  -- The part of `New` behind the checks of the header.
  unfoldable pub with_mode : Mode → E1Config → Options → Client → Result E1Error Client
  unfolding check_url with_token
  with_mode mode_off cfg opt c = ok c
  with_mode mode_dry_run cfg opt c = elim (check_url cfg.url) [
    | err e ↦ err e
    | ok url ↦
        if not opt.has_log
        then err no_log
        else ok (record c { url = url; simulated = opt.simulated })
  ]
  with_mode mode_send cfg opt c = elim (check_url cfg.url) [
    | err e ↦ err e
    | ok url ↦ with_token cfg opt (record c { url = url })
  ]

  abbrev pub bare_client : Mode → E1Config → Intent → Client
  bare_client mode cfg i = record {
    mode = mode;
    account = cfg.account;
    intent = i;
    url = "";
    header = token_header_of cfg;
    token = "";
    timeout = pos 0;
    simulated = none;
  }

  -- `New` with the mode of the configuration.
  unfoldable pub new_in_mode : Mode → E1Config → Intent → Options → Result E1Error Client
  unfolding with_mode validate
  new_in_mode mode cfg i opt =
      if not (str_eq i.account mock_account) then err account_not_mock else elim (validate i) [
        | some e ↦ err (bad_intent e)
        | none ↦
            if not (header_name (token_header_of cfg))
            then err bad_header_name
            else if collides (env.canonical_header_key (token_header_of cfg))
            then err header_collides
            else with_mode mode cfg opt (bare_client mode cfg i)
      ]

  -- `New`.
  unfoldable pub new_e1_client : E1Config → Intent → Options → Result E1Error Client
  unfolding mode_of new_in_mode
  new_e1_client cfg i opt = elim (mode_of cfg) [
    | err e ↦ err e
    | ok mode ↦ new_in_mode mode cfg i opt
  ]

  abbrev pub trimmed_id : Option String → String
  trimmed_id none = ""
  trimmed_id (some id) = trim_text is_space id

  abbrev pub text_or_empty : Option String → String
  text_or_empty none = ""
  text_or_empty (some s) = s

  -- The `switch` of `ToExec`, with the identifier of the broker and the outcome so far.
  abbrev pub with_status : Status → Child → Outcome → Outcome
  with_status accepted ch out =
      if not (str_eq out.broker_order_id "") || is_cancel ch.action
      then record out { status = accepted }
      else record out { reason = "e1 accepted without broker_order_id" }
  with_status refused ch out = record out { status = refused }
  with_status uncertain ch out = record out { status = uncertain }
  with_status sending ch out = record out { status = sending }
  with_status conflict ch out = record out { status = conflict }
  with_status (other_status s) ch out = record out {
    reason = str_append "e1 status " (env.quoted s);
  }

  -- `ToExec`.
  unfoldable pub to_exec : GatewayOutcome → Child → Outcome
  to_exec o ch = with_status o.status ch (record {
    key = ch.key;
    status = uncertain;
    reason = text_or_empty o.reason;
    broker_order_id = trimmed_id o.broker_order_id;
  })

  abbrev pub no_status_given : Status → Bool
  no_status_given (other_status s) = str_eq s ""
  no_status_given _ = false

  -- `ParseOutcome`.
  unfoldable pub parse_outcome : String → Result E1Error GatewayOutcome
  parse_outcome body = elim (env.decode_outcome body) [
    | none ↦ err bad_outcome
    | some o ↦ if no_status_given o.status then err no_status else ok o
  ]

  -- `local`.
  abbrev pub local_outcome : Child → String → Outcome
  local_outcome ch reason = record {
    key = ch.key;
    status = refused;
    reason = str_append "fillwire: " reason;
    broker_order_id = "";
  }

  abbrev pub local_answer : Child → String → Sent
  local_answer ch reason = record {
    result = ok (local_outcome ch reason);
    posted = none;
    logged = none;
  }

  -- The end of `Send`, with what the request comes to.
  unfoldable pub read_answer : Child → HttpAnswer → Result E1Error Outcome
  unfolding parse_outcome to_exec
  read_answer ch transport_failed = err post_failed
  read_answer ch unreadable_body = err body_failed
  read_answer ch (answer status size body) =
      if not (status == 200)
      then err (http_status status)
      else if ltb max_answer_bytes size
      then err answer_too_large
      else elim (parse_outcome body) [ err e ↦ err e | ok o ↦ ok (to_exec o ch) ]

  -- The answer that a dry run simulates.
  unfoldable pub simulate : Option (Child → Option GatewayOutcome) → Child → Result E1Error Outcome
  unfolding to_exec
  simulate none ch = err no_answer
  simulate (some f) ch = elim (f ch) [ none ↦ err answer_failed | some o ↦ ok (to_exec o ch) ]

  abbrev pub dry_run_line : Client → Child → String → DryRunLine
  dry_run_line c ch body = record {
    url = c.url;
    headers =
        ("Content-Type", "application/json")
        ∷ (c.header, "<not read in dry run>")
        ∷ (confirm_header, ch.key)
        ∷ [];
    body = body;
  }

  -- `dryRun`.
  unfoldable pub send_dry_run : Client → Child → String → Sent
  unfolding simulate
  send_dry_run c ch body =
      let line = dry_run_line c ch body in
      elim (env.encode_line line) [
        | none ↦ record { result = err encode_failed; posted = none; logged = none }
        | some text ↦
            if env.log_writes text
            then record { result = simulate c.simulated ch; posted = none; logged = some line }
            else record { result = err log_failed; posted = none; logged = none }
      ]

  abbrev pub child_request : Client → Child → String → Request
  child_request c ch body = record {
    url = c.url;
    headers =
        ("Content-Type", "application/json") ∷ (c.header, c.token) ∷ (confirm_header, ch.key) ∷ [];
    body = body;
  }

  -- The part of `Send` that posts.
  unfoldable pub send_post : Client → Child → String → Sent
  unfolding read_answer
  send_post c ch body =
      let r = child_request c ch body in
      elim (env.request_refused r) [
        | some text ↦ local_answer ch text
        | none ↦ record { result = read_answer ch (env.http_do r); posted = some r; logged = none }
      ]

  -- `Send` by the mode.
  unfoldable pub send_mode : Mode → Client → Child → Sent
  unfolding send_dry_run send_post
  send_mode mode_off c ch = local_answer ch "send disabled"
  send_mode mode_dry_run c ch = elim (env.marshal_child ch) [
    | err text ↦ local_answer ch text
    | ok body ↦ send_dry_run c ch body
  ]
  send_mode mode_send c ch = elim (env.marshal_child ch) [
    | err text ↦ local_answer ch text
    | ok body ↦ send_post c ch body
  ]

  -- `Send`.
  unfoldable pub send_child_request : Client → Child → Sent
  unfolding send_mode
  send_child_request c ch =
      if not (str_eq c.account mock_account) || not (str_eq c.intent.account mock_account)
      then local_answer ch "account not kis_mock"
      else if not (str_eq ch.intent_id c.intent.intent_id)
      then local_answer ch
          (str_append "intent " (str_append (env.quoted ch.intent_id) " is not this client's"))
      else send_mode c.mode c ch
