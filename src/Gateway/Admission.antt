-- ===== src/Gateway/Admission.antt =====
-- What the gateway has checked when it goes on to the idempotency key.
use webhook_relay_service.Redis.Keys.{ingress}
use webhook_relay_service.RateLimiter.{allow_request, new_limiter}
use webhook_relay_service.Http.{Result, raised}
use webhook_relay_service.Redis.{Redis, Windows}
use webhook_relay_service.Prelude.{[], arith, some, true, ℕ, ◌≡◌, Option, sym, none, refl, ◌*◌}
use webhook_relay_service.Model.Settings.{Settings}
use webhook_relay_service.Model.Rows.{Endpoint}
use webhook_relay_service.Model.Json.{Value}
use webhook_relay_service.Model.Db.{Db, endpoint_by_id}
use webhook_relay_service.Http.Leaves.{Leaves, leaves_rules}
use webhook_relay_service.Gateway.{
  Bytes, Codecs, Gate, Moment, WebhookRequest, admit, check_rate, check_schema, check_signature,
  client_ip_allowed, loaded, read_limited_body, ok,
}

module _ (r : Redis) (w : Windows) (codecs : Codecs) (settings : Settings) (at : Moment) where
  -- The checks that an admitted request has passed, for its endpoint and payload.
  pub record IsAdmitted (q : WebhookRequest) (db : Db) (windows : w.State) (endpoint : Endpoint)
      (payload : Value) : Type 0 where
    pub id : ℕ
    pub raw_body : Bytes
    pub read : read_limited_body settings.max_webhook_body_bytes [] q.chunks ≡ ok raw_body
    pub parsed : codecs.parse_uuid q.endpoint_id ≡ some id
    pub found : endpoint_by_id id db ≡ some endpoint
    pub active : endpoint.is_active ≡ true
    pub allowed : client_ip_allowed codecs q.client_host endpoint.ip_allowlist ≡ true
    pub under_limit :
        (rps : ℕ)
        → endpoint.rate_limit_rps ≡ some rps
        → (allow_request w
            (new_limiter settings)
            (ingress endpoint.id)
            (some (rps * 60))
            at.now
            windows).0
          ≡ true
    pub signed : check_signature codecs endpoint raw_body q.x_hub_signature_256 ≡ ok tt
    pub json : codecs.json_loads raw_body ≡ loaded payload
    pub schema : check_schema codecs endpoint payload ≡ ok tt

  -- The database and the string keys.
  abbrev pub stores : Gate r w codecs settings → Db × r.State
  stores g = (g.db, g.redis)

  check_rate-Leaves :
      (endpoint : Endpoint) → Leaves stores (check_rate r w codecs settings at endpoint)
  unfolding check_rate
  check_rate-Leaves endpoint = record { same = λ s. ground arith }

  -- The checks change nothing but the windows of the rate limiter.
  pub admit-Leaves : (q : WebhookRequest) → Leaves stores (admit r w codecs settings at q)
  unfolding admit
  admit-Leaves q = search (leaves_rules, check_rate-Leaves) depth 40

  admit_inverse :
      (q : WebhookRequest) (s : Gate r w codecs settings) (endpoint : Endpoint) (payload : Value)
      (read : Result Bytes) (parsed : Option ℕ)
      → read ≡ read_limited_body settings.max_webhook_body_bytes [] q.chunks
      → parsed ≡ codecs.parse_uuid q.endpoint_id
      → (admit r w codecs settings at q s).0 ≡ ok (endpoint, payload)
      → IsAdmitted q s.db s.windows endpoint payload
  unfolding admit check_rate
  admit_inverse q s endpoint payload (raised e) parsed er ep h = absurd (ground (arith, h))
  admit_inverse q s endpoint payload (ok raw_body) none er ep h = absurd (ground (arith, h))
  admit_inverse q s endpoint payload (ok raw_body) (some id) er ep h = record {
    id = id;
    raw_body = raw_body;
    read = sym er;
    parsed = sym ep;
    found = ground arith;
    active = ground arith;
    allowed = ground arith;
    under_limit = λ rps limited. ground (arith, limited);
    signed = ground arith;
    json = ground arith;
    schema = ground arith;
  }

  -- Every check has passed when the checks return.
  pub admit-IsAdmitted :
      (q : WebhookRequest) (s : Gate r w codecs settings) (endpoint : Endpoint) (payload : Value)
      → (admit r w codecs settings at q s).0 ≡ ok (endpoint, payload)
      → IsAdmitted q s.db s.windows endpoint payload
  admit-IsAdmitted q s endpoint payload h =
      admit_inverse q s endpoint payload
        (read_limited_body settings.max_webhook_body_bytes [] q.chunks)
        (codecs.parse_uuid q.endpoint_id) refl refl h
