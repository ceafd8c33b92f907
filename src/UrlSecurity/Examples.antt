-- ===== src/UrlSecurity/Examples.antt =====
-- The URL checks and the redaction on concrete values.
-- Without insecure URLs, a URL whose host resolves to an open address passes.
use webhook_relay_service.Samples.{net}
use webhook_relay_service.UrlSecurity.Redaction.{HidesValue, redact_headers-HidesValue, is_secret}
use webhook_relay_service.UrlSecurity.{
  Headers, check_addresses, is_blocked_host, is_blocked_ip, redact_headers, resolve_host,
  validate_delivery_url, validate_delivery_url_for_request,
}
use webhook_relay_service.Prelude.{
  All, Text, [], codes, keep, lower, map, none, not, refl, some, text_eq, ◌∷◌, ◌≡◌,
}
use webhook_relay_service.Model.Settings.{default_settings}

shop_url-passes :
    validate_delivery_url_for_request net default_settings (codes "https://shop.example") ≡ none
unfolding validate_delivery_url_for_request validate_delivery_url is_blocked_host is_blocked_ip
    check_addresses resolve_host lower text_eq
shop_url-passes = refl

abbrev headers : Headers
headers = (codes "Authorization", codes "Bearer x") ∷ (codes "Accept", codes "*/*") ∷ []

redact_headers-HidesValue_example :
    (shown : Headers) × (redact_headers (some headers) ≡ some shown)
    × All HidesValue shown
    × (map (λ (h : Text × Text). h.0) shown ≡ map (λ (h : Text × Text). h.0) headers)
    × (keep (λ h. not (is_secret h)) shown ≡ keep (λ h. not (is_secret h)) headers)
redact_headers-HidesValue_example = redact_headers-HidesValue headers
