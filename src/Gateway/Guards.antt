-- ===== src/Gateway/Guards.antt =====
-- app/gateway/handler.py: what a webhook brings, and the checks that read nothing but it and its
-- endpoint. What `uuid`, `ipaddress`, `hmac`, `json` and `jsonschema` return is the parameter `Codecs`.
use webhook_relay_service.Model.Json.{Value}
use Prim.Native.String.{String}
use webhook_relay_service.UrlSecurity.{false_on_error, text_of}
use webhook_relay_service.Prelude.{
  Bool, List, Option, Text, [], codes, false, if◌then◌else◌, keep, length, lower, ltb, map, none,
  not, one_of, some, text_eq, true, ℕ, ◌&&◌, ◌++◌, ◌==◌, ◌||◌, ◌∷◌,
}
use webhook_relay_service.Model.Rows.{Endpoint}
use webhook_relay_service.Http.{raised, http_error, filled, raise_if, Result, ok}

abbrev pub Bytes : Type 0
Bytes = List ℕ

-- What `json.loads` does: a value, a `JSONDecodeError`, or another exception.
pub data Loaded : Type 0 where
  loaded : Value → Loaded
  decode_error other_error : String → Loaded

-- What `jsonschema.validate` does: a return, a `ValidationError`, or another exception.
pub data Checked : Type 0 where
  conforms : Checked
  violates broken_schema : String → Checked

pub record Codecs : Type 0 where
  pub parse_uuid : Text → Option ℕ
  -- `ip_address(host) in ip_network(entry, strict=False)`, where `none` is a `ValueError` of the
  -- entry
  pub is_ip_address : Text → Bool
  pub in_network : Text → Text → Option Bool
  pub hmac_sha256_hex : Text → Bytes → Text
  pub json_loads : Bytes → Loaded
  pub validate : Value → Value → Checked

pub record WebhookRequest : Type 0 where
  pub endpoint_id : Text
  pub chunks : List Bytes
  pub client_host : Option Text
  pub headers : List (Text × Text)
  pub x_hub_signature_256 : Option Text
  pub idempotency_key : Option Text

-- What the handler's environment decides: the time, `uuid.uuid4()` for the event and the id of the
-- outbox row, and whether the commit goes through.
pub record Moment : Type 0 where
  pub now : ℕ
  pub event_id : ℕ
  pub outbox_id : ℕ
  pub commits : Bool

pub data Reply : Type 0 where
  accepted : ℕ → Reply
  duplicate : Reply

-- `body.extend(chunk)`, with the test of the length after each chunk.
unfoldable pub read_limited_body : ℕ → Bytes → List Bytes → Result Bytes
read_limited_body limit body [] = ok body
read_limited_body limit body (chunk ∷ rest) =
    let read = read_limited_body limit (body ++ chunk) rest in
    if ltb limit (length (body ++ chunk)) then http_error 413 "request body too large" else read

-- An entry that is no network is passed over.
unfoldable pub any_network : Codecs → Text → List Text → Bool
any_network codecs host [] = false
any_network codecs host (entry ∷ rest) =
    false_on_error (codecs.in_network entry host) || any_network codecs host rest

unfoldable pub client_ip_allowed : Codecs → Option Text → Option (List Text) → Bool
client_ip_allowed codecs host none = true
client_ip_allowed codecs host (some []) = true
client_ip_allowed codecs none (some (entry ∷ rest)) = false
client_ip_allowed codecs (some host) (some (entry ∷ rest)) =
    filled (some host) && codecs.is_ip_address host && any_network codecs host (entry ∷ rest)

-- `text.startswith(prefix)`, with what follows.
unfoldable pub after_prefix : Text → Text → Option Text
after_prefix [] t = some t
after_prefix (c ∷ p) [] = none
after_prefix (c ∷ p) (d ∷ t) = if c == d then after_prefix p t else none

abbrev pub is_ascii : Text → Bool
is_ascii [] = true
is_ascii (c ∷ t) = ltb c 128 && is_ascii t

-- `hmac.compare_digest(provided, computed)` takes two strings of ASCII characters only.
unfoldable pub compare_digest : Text → Text → Result Bool
unfolding text_eq
compare_digest provided computed =
    if is_ascii provided && is_ascii computed
    then ok (text_eq provided computed)
    else http_error 500 "TypeError"

unfoldable pub check_digest : Codecs → Text → Bytes → Option Text → Result (Unit {0})
check_digest codecs secret raw_body none = http_error 401 "invalid signature format"
check_digest codecs secret raw_body (some provided) =
    elim (compare_digest provided (codecs.hmac_sha256_hex secret raw_body)) [
      | raised e ↦ raised e
      | ok same ↦ raise_if (not same) 401 "invalid signature"
    ]

-- The signature is asked for if the endpoint has a secret.
unfoldable pub check_signature : Codecs → Endpoint → Bytes → Option Text → Result (Unit {0})
check_signature codecs endpoint raw_body header =
    if filled (some endpoint.hmac_secret)
    then (if filled header
        then check_digest codecs endpoint.hmac_secret raw_body
            (after_prefix (codes "sha256=") (text_of header))
        else http_error 401 "missing signature header")
    else ok tt

abbrev pub load_payload : Loaded → Result Value
load_payload (loaded value) = ok value
load_payload (decode_error e) = http_error 400 "invalid JSON payload"
load_payload (other_error e) = http_error 500 e

abbrev pub check_conforms : Checked → Result (Unit {0})
check_conforms conforms = ok tt
check_conforms (violates e) = http_error 422 e
check_conforms (broken_schema e) = http_error 500 e

abbrev pub check_loaded : Codecs → Value → Loaded → Result (Unit {0})
check_loaded codecs payload (loaded schema) = check_conforms (codecs.validate payload schema)
check_loaded codecs payload (decode_error e) = http_error 422 e
check_loaded codecs payload (other_error e) = http_error 500 e

-- The payload is checked if the endpoint has a schema.
unfoldable pub check_schema : Codecs → Endpoint → Value → Result (Unit {0})
check_schema codecs endpoint payload =
    if filled endpoint.request_body_schema
    then check_loaded codecs payload (codecs.json_loads (text_of endpoint.request_body_schema))
    else ok tt

abbrev pub excluded_headers : List Text
excluded_headers = codes "authorization" ∷ codes "cookie" ∷ codes "set-cookie" ∷ []

unfoldable pub is_excluded : Text → Bool
unfolding lower text_eq
is_excluded key = one_of (lower key) excluded_headers

-- The headers that are stored: lower-case names, the secret ones left out. They are the items of the
-- dictionary in the order of the request; of two with one name the last counts.
unfoldable pub stored_headers : List (Text × Text) → List (Text × Text)
unfolding lower
stored_headers headers =
    map (λ (h : Text × Text). (lower h.0, h.1)) (keep (λ h. not (is_excluded h.0)) headers)
