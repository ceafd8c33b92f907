-- ===== src/Gateway/Idempotency.antt =====
-- A key that a webhook brought is taken when the checks have passed, before the event is stored.
use webhook_relay_service.Gateway.Storage.{Handled, receive-Handled}
use webhook_relay_service.UrlSecurity.{text_of}
use webhook_relay_service.Redis.Keys.{Key, idem, key_eq_refl}
use webhook_relay_service.Redis.{Redis, Stored, Windows, live, set_nx, text}
use webhook_relay_service.Prelude.{
  ap, arith, codes, ltb, lt→ltb, none, refl, some, true, ◌*◌, ◌+◌, ◌<◌, ◌∙◌, ◌≡◌,
}
use webhook_relay_service.Model.Settings.{Settings}
use webhook_relay_service.Model.Rows.{Endpoint}
use webhook_relay_service.Model.Json.{Value}
use webhook_relay_service.Model.Db.{Db}
use webhook_relay_service.Http.{filled, Result, raised}
use webhook_relay_service.Gateway.Admission.{admit-Leaves}
use webhook_relay_service.Gateway.{
  Codecs, Gate, Moment, WebhookRequest, admit, claim_key, duplicate, receive_webhook, store_event,
  ok, Reply, accepted,
}

module _ (r : Redis) (w : Windows) (codecs : Codecs) (settings : Settings) where
  -- The key under which a webhook is remembered.
  abbrev pub dedup_key : Endpoint → WebhookRequest → Key
  dedup_key endpoint q = idem endpoint.id (text_of q.idempotency_key)

  admit-redis :
      (at : Moment) (q : WebhookRequest) (s : Gate r w codecs settings)
      → (admit r w codecs settings at q s).1.redis ≡ s.redis
  admit-redis at q s =
      ap (λ (p : Db × r.State). p.1) ((admit-Leaves r w codecs settings at q).same s)

  store-redis :
      (at : Moment) (endpoint : Endpoint) (q : WebhookRequest) (payload : Value)
      (s : Gate r w codecs settings)
      → (store_event r w codecs settings at endpoint q payload s).1.redis ≡ s.redis
  unfolding store_event
  store-redis at endpoint q payload s = ground arith

  claimed_entry :
      (at : Moment) (q : WebhookRequest) (s : Gate r w codecs settings) (endpoint : Endpoint)
      (payload : Value)
      → (admit r w codecs settings at q s).0 ≡ ok (endpoint, payload)
      → filled q.idempotency_key ≡ true
      → live at.now (r.entry (dedup_key endpoint q) s.redis) ≡ none
      → r.entry (dedup_key endpoint q) (receive_webhook r w codecs settings at q s).1.redis
        ≡ some (text (codes "1"), some (at.now + settings.idempotency_ttl_s * 1000))
  unfolding receive_webhook claim_key set_nx
  claimed_entry at q s endpoint payload h has_key fresh =
      let s' = (admit r w codecs settings at q s).1 in
      let absent : r.get at.now (dedup_key endpoint q) s'.redis ≡ none =
        r.get_live at.now (dedup_key endpoint q) s'.redis ∙ rw (admit-redis at q s) fresh in
      simp (h, has_key) (rw (absent, set_nx) (simp store-redis (simp (r.entry-set, key_eq_refl))))

  seen_before :
      (at : Moment) (q : WebhookRequest) (s : Gate r w codecs settings) (endpoint : Endpoint)
      (payload : Value) (v : Stored)
      → (admit r w codecs settings at q s).0 ≡ ok (endpoint, payload)
      → filled q.idempotency_key ≡ true
      → live at.now (r.entry (dedup_key endpoint q) s.redis) ≡ some v
      → (receive_webhook r w codecs settings at q s).0 ≡ ok duplicate
  unfolding receive_webhook claim_key set_nx
  seen_before at q s endpoint payload v h has_key old =
      let s' = (admit r w codecs settings at q s).1 in
      let there : r.get at.now (dedup_key endpoint q) s'.redis ≡ some v =
        r.get_live at.now (dedup_key endpoint q) s'.redis ∙ rw (admit-redis at q s) old in
      simp (h, has_key) (rw (there, set_nx) refl)

  duplicate-db :
      (at : Moment) (q : WebhookRequest) (db : Db) (windows : w.State)
      (n : Result Reply × Gate r w codecs settings)
      → n.0 ≡ ok duplicate
      → Handled r w codecs settings at q db windows n
      → n.1.db ≡ db
  duplicate-db at q db windows (ok duplicate, s') e h = h.0
  duplicate-db at q db windows (ok (accepted id), s') e h = cc
  duplicate-db at q db windows (raised x, s') e h = cc

  -- After a webhook with a new key has passed the checks, whether its event was stored or its commit
  -- failed, a webhook with the same key for the same endpoint that passes the checks within the
  -- lifetime of the key is answered as a duplicate, and stores nothing.
  pub repeat-duplicate :
      (at at' : Moment) (q q' : WebhookRequest) (s s' : Gate r w codecs settings)
      (endpoint endpoint' : Endpoint) (payload payload' : Value)
      → (admit r w codecs settings at q s).0 ≡ ok (endpoint, payload)
      → filled q.idempotency_key ≡ true
      → live at.now (r.entry (dedup_key endpoint q) s.redis) ≡ none
      → s'.redis ≡ (receive_webhook r w codecs settings at q s).1.redis
      → (admit r w codecs settings at' q' s').0 ≡ ok (endpoint', payload')
      → endpoint'.id ≡ endpoint.id
      → q'.idempotency_key ≡ q.idempotency_key
      → at'.now < at.now + settings.idempotency_ttl_s * 1000
      → ((receive_webhook r w codecs settings at' q' s').0 ≡ ok duplicate)
        × ((receive_webhook r w codecs settings at' q' s').1.db ≡ s'.db)
  repeat-duplicate at at' q q' s s' endpoint endpoint' payload payload' h has_key fresh same h'
        same_id same_key soon =
      let entry = claimed_entry at q s endpoint payload h has_key fresh in
      let still : ltb at'.now (at.now + settings.idempotency_ttl_s * 1000) ≡ true =
        lt→ltb _ _ soon in
      let answer =
        seen_before at' q' s' endpoint' payload' (text (codes "1")) h' (rw same_key has_key)
          (rw (same_id, same_key, same, entry, still) refl) in
      (
        answer,
        duplicate-db at' q' s'.db s'.windows (receive_webhook r w codecs settings at' q' s') answer
            (receive-Handled r w codecs settings at' q' s'),
      )
