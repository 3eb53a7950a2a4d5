-- ===== src/Sink/Client.antt =====
-- internal/sink/sink.go: the client of the ingest endpoint.
use fillwire.Decode.Record.{FillRecord}
use fillwire.NetPolicy.{Net, is_loopback_host}
use fillwire.Prelude.{
  ℕ, String, List, [], ◌∷◌, Bool, true, false, Option, some, none, Result, ok, err, length, ◌==◌,
  leb, if◌then◌else◌, ◌||◌, ◌&&◌, str_eq, ltb,
}
use fillwire.Prelude.Int.{ℤ, pos, leb_ℤ}
use Prim.Native.Char.{code}

-- `HTTPConfig`, with the timeout in nanoseconds.
pub record HttpConfig : Type 0 where
  pub url : String
  pub token : String
  pub token_header : String
  pub timeout : ℤ

-- `Client`, with the timeout of its HTTP client.
pub record Client : Type 0 where
  pub url : String
  pub token : String
  pub token_header : String
  pub timeout : ℤ

pub data ClientError : Type 0 where
  url_invalid scheme_not_permitted no_token empty_header_name bad_header_name bad_timeout :
      ClientError

-- `DefaultIngestTokenHeader`.
abbrev pub default_ingest_token_header : String
default_ingest_token_header = "X-Execution-Ledger-Ingest-Token"

abbrev one_of : List ℕ → ℕ → Bool
one_of [] b = false
one_of (c ∷ cs) b = b == c || one_of cs b

-- `isHTTPTokenChar`.
unfoldable pub is_http_token_char : ℕ → Bool
is_http_token_char b =
    leb b'a' b && leb b b'z'
    || leb b'A' b && leb b b'Z'
    || leb b'0' b && leb b b'9'
    || one_of (33 ∷ 35 ∷ 36 ∷ 37 ∷ 38 ∷ 39 ∷ 42 ∷ 43 ∷ 45 ∷ 46 ∷ 94 ∷ 95 ∷ 96 ∷ 124 ∷ 126 ∷ []) b

abbrev pub all_token_chars : String → Bool
all_token_chars String.[] = true
all_token_chars (String.◌∷◌ c s) = is_http_token_char (code c) && all_token_chars s

-- `ValidateIngestTokenHeader`.
unfoldable pub validate_ingest_token_header : String → Option ClientError
unfolding is_http_token_char
validate_ingest_token_header name =
    if str_eq name ""
    then some empty_header_name
    else if all_token_chars name
    then none
    else some bad_header_name

-- `ValidateIngestURL`.
unfoldable pub validate_ingest_url : Net → String → Option ClientError
unfolding is_loopback_host
validate_ingest_url net raw = elim (net.parse_request_uri raw) [
  | none ↦ some url_invalid
  | some u ↦
      if str_eq u.scheme "" || str_eq u.host ""
      then some url_invalid
      else if str_eq (net.to_lower u.scheme) "https"
      then none
      else if str_eq (net.to_lower u.scheme) "http" && is_loopback_host net u.hostname
      then none
      else some scheme_not_permitted
]

abbrev pub header_name : HttpConfig → String
header_name cfg =
    if str_eq cfg.token_header "" then default_ingest_token_header else cfg.token_header

-- `NewClient`.
unfoldable pub new_client : Net → HttpConfig → Result ClientError Client
unfolding validate_ingest_url validate_ingest_token_header
new_client net cfg = elim (validate_ingest_url net cfg.url) [
  | some e ↦ err e
  | none ↦
      if str_eq cfg.token ""
      then err no_token
      else elim (validate_ingest_token_header (header_name cfg)) [
        | some e ↦ err e
        | none ↦
            if leb_ℤ cfg.timeout (pos 0)
            then err bad_timeout
            else ok (record {
              url = cfg.url;
              token = cfg.token;
              token_header = header_name cfg;
              timeout = cfg.timeout;
            })
      ]
]

-- `Result`.
pub record IngestResult : Type 0 where
  pub status : String
  pub row_id : Option ℤ
  pub reason : Option String

-- `Response`.
pub record Response : Type 0 where
  pub source : String
  pub source_run_id : Option String
  pub received : ℤ
  pub accepted : ℤ
  pub rejected : ℤ
  pub results : List IngestResult

-- What a request comes to. A body is a response, or `none` where it does not decode.
pub data Reply : Type 0 where
  encode_failed create_failed network_failed : Reply
  answered : ℕ → Option Response → Reply

pub data PostError : Type 0 where
  bad_batch_size could_not_encode could_not_create network_failure invalid_response : PostError
  http_status : ℕ → PostError

-- `Post` of a batch of an admitted size.
abbrev pub post_reply : Reply → Result PostError Response
post_reply encode_failed = err could_not_encode
post_reply create_failed = err could_not_create
post_reply network_failed = err network_failure
post_reply (answered status body) =
    if ltb status 200 || leb 300 status
    then err (http_status status)
    else elim body [ none ↦ err invalid_response | some response ↦ ok response ]

-- `Post`.
unfoldable pub post : (List FillRecord → Reply) → List FillRecord → Result PostError Response
post request fills =
    if ltb (length fills) 1 || ltb 200 (length fills)
    then err bad_batch_size
    else post_reply (request fills)
