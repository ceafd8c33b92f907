-- ===== src/UrlSecurity/Accepted.antt =====
-- Exactly which URLs are accepted, when a route is saved and when a request is sent.
use webhook_relay_service.UrlSecurity.{
  Net, is_blocked_host, text_of, validate_delivery_url, validate_delivery_url_for_request,
  is_blocked_ip, port_or_443, check_resolved, check_addresses,
}
use webhook_relay_service.Prelude.{
  Text, [], codes, false, lower, one_of, true, ◌↔◌, ◌∷◌, ◌≡◌, ◌⊎◌, arith, text_eq_iff, some, refl,
  Option, none, All, List, inl, inr, Bool-cases,
}
use webhook_relay_service.Model.Settings.{Settings}
use webhook_relay_service.Http.{filled, ok, HttpException, raised}

-- An absolute http or https URL, https unless the setting allows both, with no credentials and a
-- host that is neither a local name nor a blocked address.
pub record IsDeliverable (net : Net) (settings : Settings) (url : Text) : Type 0 where
  pub absolute : one_of (lower (net.urlparse url).scheme) (codes "http" ∷ codes "https" ∷ []) ≡ true
  pub has_host : filled (net.urlparse url).hostname ≡ true
  pub secure :
      (lower (net.urlparse url).scheme ≡ codes "https")
      ⊎ (settings.allow_insecure_delivery_urls ≡ true)
  pub no_username : filled (net.urlparse url).username ≡ false
  pub no_password : filled (net.urlparse url).password ≡ false
  pub open_host : is_blocked_host net (text_of (net.urlparse url).hostname) ≡ false

module _ (net : Net) (settings : Settings) (url : Text) where
  -- A URL is accepted, and returned as it is, exactly if it is deliverable.
  pub validate_iff :
      (validate_delivery_url net settings url ≡ ok url) ↔ IsDeliverable net settings url
  unfolding validate_delivery_url
  validate_iff = (
    λ h. ground (arith, text_eq_iff (lower (net.urlparse url).scheme) (codes "https")),
    λ d. ground (arith, text_eq_iff (lower (net.urlparse url).scheme) (codes "https")),
  )

check_addresses_iff :
    (net : Net) (addresses : List Text)
    → (check_addresses net addresses ≡ none) ↔ All (λ a. is_blocked_ip net a ≡ some false) addresses
unfolding check_addresses
check_addresses_iff net [] = (λ _. tt, λ _. refl)
check_addresses_iff net (a ∷ rest) = (
  λ h. ground (arith, check_addresses_iff net rest),
  λ h. ground (arith, check_addresses_iff net rest),
)

-- The addresses that a host resolves to are known, and none of them is blocked.
abbrev pub ResolvesOutside : Net → Text → Type 0
ResolvesOutside net url =
    (addresses : List Text) × (net.getaddrinfo (text_of (net.urlparse url).hostname)
        (port_or_443 (net.urlparse url).port)
      ≡ some addresses)
    × All (λ a. is_blocked_ip net a ≡ some false) addresses

module _ (net : Net) (settings : Settings) (url : Text) where
  resolved_iff :
      (found : Option (List Text))
      → (check_resolved net found ≡ none) ↔ (
          (addresses : List Text) × (found ≡ some addresses)
          × All (λ a. is_blocked_ip net a ≡ some false) addresses)
  resolved_iff none = (λ h. cc, λ (addresses, e, safe). cc)
  resolved_iff (some l) = (
    λ h. (l, refl, (check_addresses_iff net l).0 h),
    λ (addresses, e, safe). (check_addresses_iff net l).1 (ground (arith, e)),
  )

  pub validate_cases :
      (validate_delivery_url net settings url ≡ ok url)
      ⊎ ((e : HttpException) × (validate_delivery_url net settings url ≡ raised e)
          × (e.status_code ≡ 400))
  unfolding validate_delivery_url
  validate_cases = ground arith

  -- A request goes out exactly if its URL is deliverable and, unless insecure URLs are allowed, its
  -- host resolves, and to addresses none of which is blocked.
  pub validate_for_request_iff : (validate_delivery_url_for_request net settings url ≡ none) ↔ (
      IsDeliverable net settings url
      × ((settings.allow_insecure_delivery_urls ≡ true) ⊎ ResolvesOutside net url))
  unfolding validate_delivery_url_for_request
  validate_for_request_iff =
      let found =
        net.getaddrinfo (text_of (net.urlparse url).hostname)
          (port_or_443 (net.urlparse url).port) in
      (
        λ h. elim validate_cases [
          | inl accepted ↦ (
            (validate_iff net settings url).0 accepted,
            elim (Bool-cases settings.allow_insecure_delivery_urls) [
              | inl insecure ↦ inl insecure
              | inr secure ↦ inr ((resolved_iff found).0 (ground arith))
            ],
          )
          | inr (e, refused, _) ↦ absurd (ground arith)
        ],
        λ (deliverable, outside). elim outside [
          | inl insecure ↦ ground (arith, (validate_iff net settings url).1 deliverable)
          | inr resolves ↦ ground (
            arith,
            (validate_iff net settings url).1 deliverable,
            (resolved_iff found).1 resolves,
          )
        ],
      )
