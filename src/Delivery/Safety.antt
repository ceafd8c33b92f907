-- ===== src/Delivery/Safety.antt =====
-- What a delivery never does, whatever the world answers.
use mathlib.Core.List.{append_assoc, append-nil}
use webhook_relay_service.Delivery.Keeps.{deliver-Holds}
use webhook_relay_service.UrlSecurity.Accepted.{
  IsDeliverable, ResolvesOutside, validate_for_request_iff,
}
use webhook_relay_service.UrlSecurity.{validate_delivery_url_for_request}
use webhook_relay_service.Redis.{Redis, Windows}
use webhook_relay_service.Prelude.{
  Bool, Option-cases, arith, false, inl, inr, refl, some, true, ℕ, ◌≡◌, ◌⊎◌, All, All-append, List,
  [], ◌++◌, ◌∷◌, ◌∙◌, ap, sym,
}
use webhook_relay_service.Model.Settings.{Settings}
use webhook_relay_service.Delivery.{
  Outside, RouteArgs, World, bury, deliver, send, Value, Request, request,
}

-- A request to a URL that is deliverable and, unless insecure URLs are allowed, resolves to
-- addresses none of which is blocked.
pub record IsSafe (out : Outside) (settings : Settings) (q : Request) : Type 0 where
  pub deliverable : IsDeliverable out.net settings q.url
  pub outside : (settings.allow_insecure_delivery_urls ≡ true) ⊎ ResolvesOutside out.net q.url

-- The requests that went out since some earlier ones are safe.
abbrev pub AreSafe : Outside → Settings → List Request → List Request → Type 0
AreSafe out settings earlier requests =
    (sent : List Request) × (requests ≡ earlier ++ sent) × All (IsSafe out settings) sent

module _ (r : Redis) (w : Windows) (out : Outside) (settings : Settings) (event_id : ℕ)
    (route : RouteArgs) (body : Value) (fuel attempt waits : ℕ) (s : World r w)
    (result : World r w × Bool)
    (ran : deliver r w out settings event_id route body fuel attempt waits s ≡ some result) where
  send-AreSafe :
      (s' : World r w)
      → AreSafe out settings s.requests s'.requests
      → AreSafe out settings s.requests (send r w out settings event_id route body s').1.requests
  unfolding send
  send-AreSafe s' (sent, same, safe) =
      elim (Option-cases (validate_delivery_url_for_request out.net settings route.url)) [
        | inr (e, refused) ↦ rw (refused, send) (sent, same, safe)
        | inl accepted ↦
            let q = request r w out settings event_id route body in
            let (deliverable, outside) =
              (validate_for_request_iff out.net settings route.url).0 accepted in
            let now_safe : IsSafe out settings q = record {
              deliverable = deliverable;
              outside = outside;
            } in
            rw (accepted, send)
              (
                sent ++ q ∷ [],
                ap (λ l. l ++ q ∷ []) same ∙ append_assoc s.requests sent (q ∷ []),
                All-append (IsSafe out settings) sent (q ∷ []) safe (now_safe, tt),
              )
      ]

  -- Every request that a delivery sends goes to a URL that is deliverable and, unless insecure URLs
  -- are allowed, resolves to addresses none of which is blocked.
  pub sent-IsDeliverable : AreSafe out settings s.requests result.0.requests
  unfolding bury
  sent-IsDeliverable =
      deliver-Holds r w out settings event_id route body
        (λ requests letters producer. AreSafe out settings s.requests requests) send-AreSafe
        (λ answer s' h. ground (arith, h)) fuel attempt waits s result ran
        ([], sym (append-nil s.requests), tt)

  -- Where no Kafka producer was started, a delivery publishes no dead letter, however it ends.
  pub no_producer_no_letters : s.producer ≡ false → result.0.dead_letters ≡ s.dead_letters
  unfolding send bury
  no_producer_no_letters off =
      (deliver-Holds r w out settings event_id route body
        (λ requests letters producer. (letters ≡ s.dead_letters) × (producer ≡ false))
        (λ s' h. ground (arith, h)) (λ answer s' h. ground (arith, h)) fuel attempt waits s result
        ran (refl, off)).0
