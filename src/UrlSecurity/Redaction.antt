-- ===== src/UrlSecurity/Redaction.antt =====
-- What `redact_headers` hides and what it leaves.
use webhook_relay_service.UrlSecurity.{Headers, redact_header, is_sensitive_name, redact_headers}
use webhook_relay_service.Prelude.{
  All, Bool, Text, [], keep, map, not, refl, ◌∷◌, ◌≡◌, arith, ◌⊎◌, some, false, one_of, lower,
  codes,
}

abbrev pub is_sensitive : Text × Text → Bool
is_sensitive (key, value) = is_sensitive_name key

-- A name, in any case, that the service must not show.
abbrev pub is_secret : Text × Text → Bool
is_secret h = one_of (lower h.0) (
    codes "authorization"
    ∷ codes "cookie"
    ∷ codes "proxy-authorization"
    ∷ codes "set-cookie"
    ∷ codes "x-api-key"
    ∷ codes "x-auth-token"
    ∷ codes "x-forwarded-authorization"
    ∷ [])

-- The value of a secret header is the mark.
abbrev pub HidesValue : Text × Text → Type 0
HidesValue h = (is_secret h ≡ false) ⊎ (h.1 ≡ codes "***REDACTED***")

is_secret_lem : (h : Text × Text) → is_sensitive h ≡ is_secret h
unfolding is_sensitive_name
is_secret_lem h = refl

map-redact :
    (headers : Headers)
    → All HidesValue (map redact_header headers)
      × (map (λ (h : Text × Text). h.0) (map redact_header headers)
          ≡ map (λ (h : Text × Text). h.0) headers)
      × (keep (λ h. not (is_secret h)) (map redact_header headers)
          ≡ keep (λ h. not (is_secret h)) headers)
map-redact [] = (tt, refl, refl)
map-redact ((k, v) ∷ hs) = ground (arith, map-redact hs, is_secret_lem (k, v))

-- What a response shows of the headers of a route: it has the same names in the same order, the value
-- of every name in `SENSITIVE_HEADER_NAMES`, in any case, is the mark, and the other headers are as
-- they were.
pub redact_headers-HidesValue :
    (headers : Headers)
    → (shown : Headers) × (redact_headers (some headers) ≡ some shown)
      × All HidesValue shown
      × (map (λ (h : Text × Text). h.0) shown ≡ map (λ (h : Text × Text). h.0) headers)
      × (keep (λ h. not (is_secret h)) shown ≡ keep (λ h. not (is_secret h)) headers)
unfolding redact_headers
redact_headers-HidesValue headers =
    let facts = map-redact headers in (map redact_header headers, refl, facts.0, facts.1, facts.2)
