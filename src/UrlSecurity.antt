-- ===== src/UrlSecurity.antt =====
-- app/core/url_security.py: which URLs a route may deliver to, and the redaction of headers.
-- What `urllib.parse`, `ipaddress` and `socket.getaddrinfo` return is the parameter `Net`.
pub mod Accepted
pub mod Redaction
mod Examples
use Prim.Native.String.{String}
use webhook_relay_service.Prelude.{
  Bool, List, Option, Text, [], codes, false, if◌then◌else◌, lower, map, none, not, one_of, some,
  suc, text_eq, true, zero, ℕ, ◌&&◌, ◌==◌, ◌||◌, ◌∷◌, reverse,
}
use webhook_relay_service.Model.Settings.{Settings}
use webhook_relay_service.Http.{Result, filled, raise_if, raised, ok, ◌>>=◌, ◌>>◌}

-- The attributes of `urlparse(url)` that are read.
pub record ParsedUrl : Type 0 where
  pub scheme : Text
  pub hostname : Option Text
  pub username : Option Text
  pub password : Option Text
  pub port : Option ℕ

-- The properties of an `ipaddress` object.
pub record IpAddress : Type 0 where
  pub is_private : Bool
  pub is_loopback : Bool
  pub is_link_local : Bool
  pub is_multicast : Bool
  pub is_reserved : Bool
  pub is_unspecified : Bool

pub record Net : Type 0 where
  pub urlparse : Text → ParsedUrl
  -- `none` is a `ValueError`
  pub ip_address : Text → Option IpAddress
  -- the addresses of `getaddrinfo(host, port)`, where `none` is an `OSError`
  pub getaddrinfo : Text → ℕ → Option (List Text)

-- `none` is a `ValueError`.
unfoldable pub is_blocked_ip : Net → Text → Option Bool
is_blocked_ip net address = elim (net.ip_address address) [
  | none ↦ none
  | some ip ↦ some (
      ip.is_private || ip.is_loopback || ip.is_link_local || ip.is_multicast || ip.is_reserved
      || ip.is_unspecified)
]

-- `text.rstrip(".")`.
abbrev pub lstrip_dots : Text → Text
lstrip_dots [] = []
lstrip_dots (c ∷ t) = if c == b'.' then lstrip_dots t else c ∷ t

abbrev pub rstrip_dots : Text → Text
rstrip_dots t = reverse (lstrip_dots (reverse t))

abbrev pub local_names : List Text
local_names = codes "localhost" ∷ codes "localhost.localdomain" ∷ []

-- `except ValueError: return False`.
abbrev pub false_on_error : Option Bool → Bool
false_on_error none = false
false_on_error (some b) = b

unfoldable pub is_blocked_host : Net → Text → Bool
is_blocked_host net hostname =
    let normalized = lower (rstrip_dots hostname) in
    if one_of normalized local_names then true else false_on_error (is_blocked_ip net normalized)

abbrev pub text_of : Option Text → Text
text_of none = []
text_of (some t) = t

unfoldable pub validate_delivery_url : Net → Settings → Text → Result Text
validate_delivery_url net settings url = do
  let parsed = net.urlparse url
  let scheme = lower parsed.scheme
  raise_if (not (one_of scheme (codes "http" ∷ codes "https" ∷ [])) || not (filled parsed.hostname))
      400 "route url must be an absolute http(s) URL"
  raise_if (not (text_eq scheme (codes "https")) && not settings.allow_insecure_delivery_urls) 400
      "route url must use https"
  raise_if (filled parsed.username || filled parsed.password) 400
      "route url must not include credentials"
  raise_if (is_blocked_host net (text_of parsed.hostname)) 400 "route url host is not allowed"
  ok url

-- What `validate_delivery_url_for_request` raises.
pub data CheckError : Type 0 where
  value_error : String → CheckError
  -- from the resolver
  os_error : CheckError
  -- from `ipaddress.ip_address` on a resolved address
  bad_address : CheckError

-- `for address in …: if _is_blocked_ip(address): raise`. The set is walked in any order.
unfoldable pub check_addresses : Net → List Text → Option CheckError
check_addresses net [] = none
check_addresses net (address ∷ rest) =
    let later = check_addresses net rest in
    elim (is_blocked_ip net address) [
      | none ↦ some bad_address
      | some blocked ↦
          if blocked
          then some (value_error "route url resolves to a private or reserved address")
          else later
    ]

-- `port or 443`.
abbrev pub port_or_443 : Option ℕ → ℕ
port_or_443 none = 443
port_or_443 (some zero) = 443
port_or_443 (some (suc n)) = suc n

unfoldable pub resolve_host : Net → Text → Option ℕ → Option (List Text)
resolve_host net hostname port = net.getaddrinfo hostname (port_or_443 port)

abbrev pub check_resolved : Net → Option (List Text) → Option CheckError
check_resolved net none = some os_error
check_resolved net (some addresses) = check_addresses net addresses

-- `none` is a normal return.
unfoldable pub validate_delivery_url_for_request : Net → Settings → Text → Option CheckError
unfolding resolve_host
validate_delivery_url_for_request net settings url = elim (validate_delivery_url net settings url) [
  | raised e ↦ some (value_error e.detail)
  | ok _ ↦
      if settings.allow_insecure_delivery_urls
      then none
      else (let parsed = net.urlparse url in
          check_resolved net (resolve_host net (text_of parsed.hostname) parsed.port))
]

abbrev pub sensitive_header_names : List Text
sensitive_header_names =
    codes "authorization"
    ∷ codes "cookie"
    ∷ codes "proxy-authorization"
    ∷ codes "set-cookie"
    ∷ codes "x-api-key"
    ∷ codes "x-auth-token"
    ∷ codes "x-forwarded-authorization"
    ∷ []

abbrev pub Headers : Type 0
Headers = List (Text × Text)

abbrev pub redacted : Text
redacted = codes "***REDACTED***"

-- `key.lower() in SENSITIVE_HEADER_NAMES`.
unfoldable pub is_sensitive_name : Text → Bool
unfolding lower text_eq
is_sensitive_name key = one_of (lower key) sensitive_header_names

abbrev pub redact_header : Text × Text → Text × Text
redact_header (key, value) = (key, if is_sensitive_name key then redacted else value)

unfoldable pub redact_headers : Option Headers → Option Headers
redact_headers none = none
redact_headers (some headers) = some (map redact_header headers)
