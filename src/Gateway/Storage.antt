-- ===== src/Gateway/Storage.antt =====
-- What a handled webhook leaves in the database and under its idempotency key.
use mathlib.Core.Path.{subst}
use webhook_relay_service.UrlSecurity.{text_of}
use webhook_relay_service.Redis.Keys.{idem}
use webhook_relay_service.Redis.{Redis, Windows, set_nx, text}
use webhook_relay_service.Prelude.{
  [], if◌then◌else◌, true, ◌++◌, ◌∷◌, ◌≡◌, inl, Bool-cases, codes, refl, inr, Option-cases, some,
  ap, map, keep, not, one_of, lower, none, false, Text,
}
use webhook_relay_service.Model.Settings.{Settings}
use webhook_relay_service.Model.Rows.{Endpoint, Event, EventStatus, OutboxRecord, OutboxStatus}
use webhook_relay_service.Model.Json.{Value}
use webhook_relay_service.Model.Db.{Db}
use webhook_relay_service.Http.{Result, filled, raised}
use webhook_relay_service.Gateway.Admission.{IsAdmitted, admit-Leaves, admit-IsAdmitted}
use webhook_relay_service.Gateway.{
  Codecs, Gate, Moment, Reply, WebhookRequest, accepted, claim_key, duplicate, store_event, ok,
  admit, receive_webhook, stored_headers, is_excluded,
}
use webhook_relay_service.Http.Action.{◌>>=◌, pure}

module _ (r : Redis) (w : Windows) (codecs : Codecs) (settings : Settings) (at : Moment) where
  -- The event of an accepted webhook: pending, with the payload and the headers, whose names are in
  -- lower case and which leave out the secret ones.
  abbrev pub stored_event : Endpoint → WebhookRequest → Value → Event
  stored_event endpoint q payload = record {
    id = at.event_id;
    endpoint_id = endpoint.id;
    idempotency_key = q.idempotency_key;
    request_body = payload;
    request_headers = some (
        map (λ (h : Text × Text). (lower h.0, h.1))
          (keep
            (λ h. not (
              one_of (lower h.0)
                (codes "authorization" ∷ codes "cookie" ∷ codes "set-cookie" ∷ [])))
            q.headers));
    status = EventStatus.pending;
    retry_at = none;
    received_at = at.now;
    is_discarded = false;
    discarded_at = none;
  }

  -- The outbox row of that event: pending, not tried yet, for the topic of raw events.
  abbrev pub pending_row : Endpoint → OutboxRecord
  pending_row endpoint = record {
    id = at.outbox_id;
    event_id = at.event_id;
    status = OutboxStatus.pending;
    publish_key = endpoint.id;
    publish_topic = settings.kafka_topic_raw_events;
    attempts = 0;
    last_error = none;
    created_at = at.now;
  }

  -- The database after an accepted webhook: one event and one outbox row, of the same id.
  abbrev pub with_event : Endpoint → WebhookRequest → Value → Db → Db
  with_event endpoint q payload db = record db {
    events = db.events ++ stored_event endpoint q payload ∷ [];
    outbox = db.outbox ++ pending_row endpoint ∷ [];
  }

  -- What a handled webhook has done, by how it ended.
  abbrev pub Handled :
      WebhookRequest → Db → w.State → Result Reply × Gate r w codecs settings → Type 0
  Handled q db windows (raised e, s') = s'.db ≡ db
  Handled q db windows (ok duplicate, s') = (s'.db ≡ db) × (filled q.idempotency_key ≡ true)
  Handled q db windows (ok (accepted id), s') =
      (endpoint : Endpoint) × (payload : Value) × IsAdmitted r w codecs settings at q db windows
        endpoint payload
      × (id ≡ at.event_id)
      × (s'.db ≡ with_event endpoint q payload db)

  store-Handled :
      (q : WebhookRequest) (endpoint : Endpoint) (payload : Value) (s : Gate r w codecs settings)
      (windows : w.State)
      → IsAdmitted r w codecs settings at q s.db windows endpoint payload
      → Handled q s.db windows (store_event r w codecs settings at endpoint q payload s)
  unfolding store_event stored_headers is_excluded
  store-Handled q endpoint payload s windows a = elim (Bool-cases at.commits) [
    | inl done ↦ simp done (endpoint, payload, a, refl, refl)
    | inr lost ↦ simp lost refl
  ]

  claim_then :
      (q : WebhookRequest) (endpoint : Endpoint) (payload : Value) (s : Gate r w codecs settings)
      (windows : w.State)
      → IsAdmitted r w codecs settings at q s.db windows endpoint payload
      → Handled q s.db windows (
          (claim_key r w codecs settings at endpoint q.idempotency_key >>= λ seen.
          if seen then pure duplicate else store_event r w codecs settings at endpoint q payload)
            s)
  unfolding claim_key set_nx
  claim_then q endpoint payload s windows a = elim (Bool-cases (filled q.idempotency_key)) [
    | inr no_key ↦ simp no_key (store-Handled q endpoint payload s windows a)
    | inl has_key ↦
        elim (Option-cases (r.get at.now (idem endpoint.id (text_of q.idempotency_key)) s.redis)) [
          | inl new_key ↦ rw has_key (
              rw (new_key, set_nx)
                (store-Handled q endpoint payload
                  (record s {
                    redis =
                        r.set at.now (idem endpoint.id (text_of q.idempotency_key))
                          (text (codes "1")) (some settings.idempotency_ttl_s) s.redis;
                  })
                  windows a))
          | inr (v, old) ↦ rw has_key (rw (old, set_nx) (refl, has_key))
        ]
  ]

  admit-db :
      (q : WebhookRequest) (s : Gate r w codecs settings)
      → (admit r w codecs settings at q s).1.db ≡ s.db
  admit-db q s = ap (λ (p : Db × r.State). p.0) ((admit-Leaves r w codecs settings at q).same s)

  admitted_then :
      (q : WebhookRequest) (s : Gate r w codecs settings) (admitted : Result (Endpoint × Value))
      → (admit r w codecs settings at q s).0 ≡ admitted
      → Handled q s.db s.windows (receive_webhook r w codecs settings at q s)
  unfolding receive_webhook
  admitted_then q s (raised e) h = simp h (admit-db q s)
  admitted_then q s (ok (endpoint, payload)) h =
      let s' = (admit r w codecs settings at q s).1 in
      let a = admit-IsAdmitted r w codecs settings at q s endpoint payload h in
      simp h (
        subst
          (λ db. Handled q db s.windows (
            (claim_key r w codecs settings at endpoint q.idempotency_key >>= λ seen.
            if seen then pure duplicate else store_event r w codecs settings at endpoint q payload)
              s'))
          (admit-db q s) (claim_then q endpoint payload s' s.windows (rw (admit-db q s) a)))

  -- A webhook that is refused, or answered as a duplicate, leaves the database as it was, and only
  -- one that brought a key is a duplicate. An accepted one has passed every check and adds exactly
  -- one event, of the id that the reply names, and one pending outbox row for that event.
  pub receive-Handled :
      (q : WebhookRequest) (s : Gate r w codecs settings)
      → Handled q s.db s.windows (receive_webhook r w codecs settings at q s)
  receive-Handled q s = admitted_then q s (admit r w codecs settings at q s).0 refl
