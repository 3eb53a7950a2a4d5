-- ===== src/NetPolicy.antt =====
-- internal/netpolicy/netpolicy.go: the hosts and schemes to which secrets may go. `net/url` and `net`
-- are parameters: the parsed URL and whether a text is a loopback address. `strings.ToLower` is the
-- parameter `to_lower`.
use fillwire.Prelude.{
  String, Bool, Option, some, none, str_eq, ◌||◌, if◌then◌else◌, not, ◌==◌, ◌&&◌,
}
use fillwire.Prelude.Strings.{is_space, trim_text}
use Prim.Native.Char.{code}

-- `url.URL`, with the fields that are read; `hostname` is what its method returns.
pub record ParsedUrl : Type 0 where
  pub scheme : String
  pub host : String
  pub hostname : String
  pub path : String
  pub opaque_part : String

pub record Net : Type 0 where
  pub parse_request_uri : String → Option ParsedUrl
  pub is_loopback_ip : String → Bool
  pub to_lower : String → String

pub data UrlError : Type 0 where
  url_invalid url_plaintext : UrlError

-- `strings.TrimSuffix` with a dot.
unfoldable pub trim_dot : String → String
trim_dot String.[] = ""
trim_dot (String.◌∷◌ c s) =
    let rest = trim_dot s in if code c == b'.' && str_eq s "" then "" else String.◌∷◌ c rest

module _ (net : Net) where
  -- `IsLoopbackHost`.
  unfoldable pub is_loopback_host : String → Bool
  unfolding trim_dot
  is_loopback_host host =
      let name = trim_dot (net.to_lower (trim_text is_space host)) in
      str_eq name "localhost" || net.is_loopback_ip name

  abbrev pub permitted : ParsedUrl → Bool
  permitted u =
      let scheme = net.to_lower u.scheme in
      if str_eq scheme "rediss"
      then not (str_eq u.host "")
      else if str_eq scheme "redis"
      then is_loopback_host u.hostname
      else str_eq scheme "unix" && (not (str_eq u.path "") || not (str_eq u.opaque_part ""))

  -- `ValidateRedisURL`.
  unfoldable pub validate_redis_url : String → Option UrlError
  unfolding is_loopback_host
  validate_redis_url raw = elim (net.parse_request_uri raw) [
    | none ↦ some url_invalid
    | some u ↦
        if str_eq u.scheme ""
        then some url_invalid
        else if permitted u
        then none
        else some url_plaintext
  ]
