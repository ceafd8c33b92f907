-- ===== src/Gateway.antt =====
-- app/gateway/handler.py: the ingress of webhooks. A request is handled at one time, in
-- milliseconds. An exception that the handler does not catch is the status 500.
mod Examples
pub mod Guards
pub mod Checks
pub mod Idempotency
pub mod Storage
pub mod Admission
unfoldable pub use Guards.*
use webhook_relay_service.Model.Json.{Value}
use webhook_relay_service.UrlSecurity.{text_of}
use webhook_relay_service.Redis.Keys.{idem, ingress}
use webhook_relay_service.Redis.{Redis, Windows, set_nx, text}
use webhook_relay_service.RateLimiter.{allow_request, new_limiter}
use webhook_relay_service.Prelude.{
  Bool, Option, Text, [], codes, false, if◌then◌else◌, none, not, some, ℕ, ◌*◌, ◌++◌, ◌∷◌,
}
use webhook_relay_service.Model.Settings.{Settings}
use webhook_relay_service.Model.Rows.{Endpoint, Event, EventStatus, OutboxRecord, OutboxStatus}
use webhook_relay_service.Model.Db.{Db, endpoint_by_id}
use webhook_relay_service.Http.{http_error, filled, or_raise, raise_if, ok}
use webhook_relay_service.Http.Action.{Action, ◌>>=◌, ◌>>◌, pure, lift, gets}

module _ (r : Redis) (w : Windows) (codecs : Codecs) (settings : Settings) where
  pub record Gate : Type 0 where
    pub db : Db
    pub redis : r.State
    pub windows : w.State

  module _ (at : Moment) where
    check_rate_at : Option ℕ → Endpoint → Action Gate Unit
    check_rate_at none endpoint s = (ok tt, s)
    check_rate_at (some rps) endpoint s =
        let (allowed, windows) =
          allow_request w (new_limiter settings) (ingress endpoint.id) (some (rps * 60)) at.now
            s.windows in
        (raise_if (not allowed) 429 "endpoint rate limit exceeded", record s { windows = windows })

    -- The limit of the endpoint, if it has one.
    unfoldable pub check_rate : Endpoint → Action Gate Unit
    unfolding check_rate_at
    check_rate endpoint = check_rate_at endpoint.rate_limit_rps endpoint

    -- Whether the key was seen before; if not it is taken, for `idempotency_ttl_s` seconds.
    unfoldable pub claim_key : Endpoint → Option Text → Action Gate Bool
    claim_key endpoint key s =
        if filled key
        then (let (new_key, redis) =
              set_nx r at.now (idem endpoint.id (text_of key)) (text (codes "1"))
                (some settings.idempotency_ttl_s) s.redis in
            (ok (not new_key), record s { redis = redis }))
        else (ok false, s)

    abbrev pub new_event : Endpoint → WebhookRequest → Value → Event
    new_event endpoint q payload = record {
      id = at.event_id;
      endpoint_id = endpoint.id;
      idempotency_key = q.idempotency_key;
      request_body = payload;
      request_headers = some (stored_headers q.headers);
      status = EventStatus.pending;
      retry_at = none;
      received_at = at.now;
      is_discarded = false;
      discarded_at = none;
    }

    abbrev pub new_outbox : Endpoint → OutboxRecord
    new_outbox endpoint = record {
      id = at.outbox_id;
      event_id = at.event_id;
      status = OutboxStatus.pending;
      publish_key = endpoint.id;
      publish_topic = settings.kafka_topic_raw_events;
      attempts = 0;
      last_error = none;
      created_at = at.now;
    }

    -- The event and its outbox row, in one transaction.
    unfoldable pub store_event : Endpoint → WebhookRequest → Value → Action Gate Reply
    store_event endpoint q payload s =
        if at.commits
        then (
          ok (accepted at.event_id),
          record s {
            db = record s.db {
              events = s.db.events ++ new_event endpoint q payload ∷ [];
              outbox = s.db.outbox ++ new_outbox endpoint ∷ [];
            };
          },
        )
        else (http_error 500 "commit failed", s)

    -- The checks before the idempotency key, in the handler's order.
    unfoldable pub admit : WebhookRequest → Action Gate (Endpoint × Value)
    admit q = do
      raw_body ← lift (read_limited_body settings.max_webhook_body_bytes [] q.chunks)
      ep_id ← lift (or_raise (codecs.parse_uuid q.endpoint_id) 400 "invalid endpoint id")
      found ← gets (λ s. endpoint_by_id ep_id s.db)
      endpoint ← lift (or_raise found 404 "endpoint not found")
      lift (raise_if (not endpoint.is_active) 410 "endpoint is disabled")
      lift (
          raise_if (not (client_ip_allowed codecs q.client_host endpoint.ip_allowlist)) 403
            "sender ip is not allowed")
      check_rate endpoint
      lift (check_signature codecs endpoint raw_body q.x_hub_signature_256)
      payload ← lift (load_payload (codecs.json_loads raw_body))
      lift (check_schema codecs endpoint payload)
      pure (endpoint, payload)

    unfoldable pub receive_webhook : WebhookRequest → Action Gate Reply
    receive_webhook q = do
      (endpoint, payload) ← admit q
      already_seen ← claim_key endpoint q.idempotency_key
      if already_seen then pure duplicate else store_event endpoint q payload
