-- ===== src/Delivery.antt =====
-- app/delivery/worker.py: one delivery of an event to a route, with its retries. The function calls
-- itself in tail position, so it is a loop over `step`, one call of `_deliver_with_retry`.
-- Clocks and delays count milliseconds.
pub mod Schedule
mod Examples
pub mod Messages
pub mod Steps
pub mod Rows
pub mod Run
pub mod Safety
pub mod Outcomes
pub mod Keeps
pub use Messages.*
use webhook_relay_service.UrlSecurity.{validate_delivery_url_for_request}
use webhook_relay_service.Redis.{Redis, Windows}
use webhook_relay_service.RateLimiter.{SlidingWindowRateLimiter, allow_request}
use webhook_relay_service.Model.Settings.{Settings}
use webhook_relay_service.Http.{filled}
use webhook_relay_service.Breaker.{CircuitBreaker, is_open, record_failure, record_success, new}
use webhook_relay_service.Model.Rows.{DeliveryAttempt}
use webhook_relay_service.Model.Json.{Value}
use webhook_relay_service.Redis.Keys.{dest, route as route_key, route}
use webhook_relay_service.Prelude.{
  ◌∷◌, ◌++◌, ◌+◌, ◌-◌, ◌*◌, ◌^◌, ◌||◌, if◌then◌else◌, [], true, some, none, codes, ltb, length,
  zero, Option, Bool, Text, false, leb, ℕ, suc,
}

module _ (r : Redis) (w : Windows) (out : Outside) (settings : Settings) (event_id : ℕ)
    (route : RouteArgs) (body : Value) where
  abbrev pub max_retries : ℕ
  max_retries = get_or route.max_retries settings.max_delivery_attempts

  abbrev pub breaker : CircuitBreaker
  breaker = new settings route.url

  abbrev pub limiter : SlidingWindowRateLimiter
  limiter = record { max_rpm = settings.rate_limit_rpm; window_ms = 60000 }

  -- A row for an attempt that sent nothing.
  abbrev pub unsent_row : ℕ → Text → DeliveryAttempt
  unsent_row attempt error = record {
    event_id = event_id;
    route_id = route.id;
    attempt_number = attempt;
    request_url = route.url;
    request_body = body;
    response_status = none;
    response_body = none;
    error = some error;
    duration_ms = 0;
  }

  abbrev pub answer_row : ℕ → Response → ℕ → DeliveryAttempt
  answer_row attempt answer took = record {
    event_id = event_id;
    route_id = route.id;
    attempt_number = attempt;
    request_url = route.url;
    request_body = body;
    response_status = status_of answer;
    response_body = body_of answer;
    error = error_of answer;
    duration_ms = took;
  }

  abbrev pub log : DeliveryAttempt → World r w → World r w
  log row s = record s { attempts = s.attempts ++ row ∷ [] }

  -- A row is committed before the rest of the call; an exception of the commit leaves the call.
  abbrev pub log_then :
      DeliveryAttempt → World r w → (World r w → World r w × Next) → World r w × Next
  log_then row s rest = if out.raises logs_row s.clock then (s, crashed) else rest (log row s)

  abbrev pub sleep : ℕ → World r w → World r w
  sleep ms s = record s { clock = s.clock + ms }

  abbrev pub request : Request
  request = record {
    method = get_or route.method (codes "POST");
    url = route.url;
    json = body;
    headers = get_or route.headers [];
    timeout_ms = get_or route.timeout_ms settings.delivery_timeout_ms;
  }

  -- The `try` block: the URL is checked, then the request is sent.
  unfoldable pub send : World r w → Response × World r w
  send s =
      let n = length s.requests in
      elim (validate_delivery_url_for_request out.net settings route.url) [
        | none ↦ (
          out.answer n request,
          record s { requests = s.requests ++ request ∷ []; clock = s.clock + out.took_ms n },
        )
        | some refused ↦ (exception (out.describe refused).0 (out.describe refused).1, s)
      ]

  abbrev pub dead_letter : Response → DeadLetter
  dead_letter answer = record {
    event_id = event_id;
    route_id = route.id;
    url = route.url;
    body = body;
    last_error = error_of answer;
    last_response_status = status_of answer;
    attempts = max_retries;
  }

  -- `except RuntimeError: pass`, around the publish alone.
  unfoldable pub bury : Response → World r w → World r w × Next
  bury answer s =
      if s.producer
      then elim (out.publish (dead_letter answer)) [
        | sent ↦ (record s { dead_letters = s.dead_letters ++ dead_letter answer ∷ [] }, finished)
        | runtime_error ↦ (s, finished)
        | other_error ↦ (s, crashed)
      ]
      else (s, finished)

  -- The delay before the next attempt, jitter included.
  abbrev pub backoff : ℕ → World r w → ℕ
  backoff attempt s =
      let delay = get_or route.retry_backoff_ms settings.retry_backoff_ms * 2 ^ attempt in
      delay + out.jitter_ms (length s.attempts) delay

  -- After a request: the breaker learns the result, and a failed attempt is tried again or buried.
  unfoldable pub settle : ℕ → Response → World r w → World r w × Next
  settle attempt answer s =
      if status_in 200 300 (status_of answer)
      then (record s { redis = record_success r breaker s.clock s.redis }, finished)
      else (let s' = record s { redis = record_failure r breaker s.clock s.redis } in
          if status_in 400 500 (status_of answer)
          then (s', finished)
          else if filled (error_of answer) || is_server_error (status_of answer)
          then (if ltb (attempt + 1) max_retries
              then (sleep (backoff attempt s') s', again (attempt + 1) 0)
              else bury answer s')
          else (s', finished))

  -- From the request on.
  unfoldable pub attempt_delivery : ℕ → World r w → World r w × Next
  attempt_delivery attempt s =
      let (answer, s') = send s in
      log_then (answer_row attempt answer (s'.clock - s.clock)) s' (λ s''.
        if out.raises records_result s''.clock then (s'', crashed) else settle attempt answer s'')

  -- The limit of the destination, with its bounded waits.
  unfoldable pub limit_destination : ℕ → ℕ → World r w → World r w × Next
  limit_destination attempt waits s =
      let (allowed, windows) = allow_request w limiter (dest route.url) none s.clock s.windows in
      let s' = record s { windows = windows } in
      if out.raises asks_destination_limit s.clock
      then (s, crashed)
      else if allowed
      then attempt_delivery attempt s'
      else if leb max_rate_limit_waits waits
      then log_then (unsent_row attempt (codes "rate_limited_abandoned")) s'
          (λ s''. (s'', finished))
      else (sleep 1000 s', again attempt (waits + 1))

  limit_route_at : Option ℕ → ℕ → ℕ → World r w → World r w × Next
  limit_route_at none attempt waits s = limit_destination attempt waits s
  limit_route_at (some rpm) attempt waits s =
      let (allowed, windows) =
        allow_request w limiter (route_key route.id) (some rpm) s.clock s.windows in
      let s' = record s { windows = windows } in
      if out.raises asks_route_limit s.clock
      then (s, crashed)
      else if allowed
      then limit_destination attempt waits s'
      else log_then (unsent_row attempt (codes "route_rate_limited")) s' (λ s''. (s'', finished))

  -- The limit of the route, if it has one.
  unfoldable pub limit_route : ℕ → ℕ → World r w → World r w × Next
  unfolding limit_route_at
  limit_route = limit_route_at route.rate_limit_rpm

  -- One call of `_deliver_with_retry`, up to its call of itself.
  unfoldable pub step : ℕ → ℕ → World r w → World r w × Next
  step attempt waits s =
      let (refused, redis) = is_open r breaker s.clock s.redis in
      let s' = record s { redis = redis } in
      if out.raises asks_breaker s.clock
      then (s, crashed)
      else if refused
      then log_then (unsent_row attempt (codes "circuit_breaker_open")) s' (λ s''.
        if ltb (attempt + 1) max_retries
        then (sleep (settings.circuit_breaker_cooldown_s * 1000) s'', again (attempt + 1) 0)
        else (s'', finished))
      else limit_route attempt waits s'

  -- The loop: the last state, and whether an exception left it. `none` is fuel that ran out.
  unfoldable pub deliver : ℕ → ℕ → ℕ → World r w → Option (World r w × Bool)
  deliver zero attempt waits s = none
  deliver (suc fuel) attempt waits s =
      let (s', next) = step attempt waits s in
      elim next [
        | finished ↦ some (s', false)
        | crashed ↦ some (s', true)
        | again attempt' waits' ↦ deliver fuel attempt' waits' s'
      ]
