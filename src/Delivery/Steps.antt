-- ===== src/Delivery/Steps.antt =====
-- What one call of `_deliver_with_retry` does to the rows, stage by stage.
use webhook_relay_service.Redis.Keys.{route as route_key, dest}
use webhook_relay_service.RateLimiter.{allow_request}
use webhook_relay_service.Breaker.{record_failure, is_open}
use webhook_relay_service.Redis.{Redis, Windows}
use webhook_relay_service.Prelude.{
  arith, ℕ, ◌+◌, ◌<◌, ◌≡◌, ◌⊎◌, some, Option, none, Bool, true, false, if◌then◌else◌, ◌-◌,
}
use webhook_relay_service.Model.Settings.{Settings}
use webhook_relay_service.Delivery.{
  Next, Outside, Response, RouteArgs, World, bury, max_rate_limit_waits, settle, Value, again,
  max_retries, crashed, finished, breaker, limit_destination, attempt_delivery, step, limiter,
  limit_route, limit_route_at, send, answer_row, log, logs_row, records_result,
}

module _ (r : Redis) (w : Windows) (out : Outside) (settings : Settings) (event_id : ℕ)
    (route : RouteArgs) (body : Value) where
  abbrev retries : ℕ
  retries = max_retries r w out settings event_id route body

  -- Where a call with an attempt and a number of waits may go on: to the next attempt, which is
  -- below the limit, or to one more wait, of which there are five.
  abbrev pub GoesOn : ℕ → ℕ → Next → Type 0
  GoesOn attempt waits finished = Unit
  GoesOn attempt waits crashed = Unit
  GoesOn attempt waits (again attempt' waits') =
      ((attempt' ≡ attempt + 1) × (waits' ≡ 0) × (attempt' < retries))
      ⊎ ((attempt' ≡ attempt) × (waits' ≡ waits + 1) × (waits < max_rate_limit_waits))

  GoesOn-if :
      (attempt waits : ℕ) (b : Bool) (x y : World r w × Next)
      → GoesOn attempt waits x.1
      → GoesOn attempt waits y.1
      → GoesOn attempt waits (if b then x else y).1
  GoesOn-if attempt waits true x y hx hy = hx
  GoesOn-if attempt waits false x y hx hy = hy

  bury-GoesOn :
      (attempt waits : ℕ) (answer : Response) (s : World r w)
      → GoesOn attempt waits (bury r w out settings event_id route body answer s).1
  unfolding bury
  bury-GoesOn attempt waits answer s = ground arith

  settle-GoesOn :
      (attempt waits : ℕ) (answer : Response) (s : World r w)
      → GoesOn attempt waits (settle r w out settings event_id route body attempt answer s).1
  unfolding settle
  settle-GoesOn attempt waits answer s = ground (
    arith,
    bury-GoesOn attempt waits answer (record s {
      redis = record_failure r (breaker r w out settings event_id route body) s.clock s.redis;
    }),
  )

  attempt_delivery-GoesOn :
      (attempt waits : ℕ) (s : World r w)
      → GoesOn attempt waits (attempt_delivery r w out settings event_id route body attempt s).1
  unfolding attempt_delivery
  attempt_delivery-GoesOn attempt waits s =
      let (answer, s') = send r w out settings event_id route body s in
      let row =
        answer_row r w out settings event_id route body attempt answer (s'.clock - s.clock) in
      let s'' : World r w = log r w out settings event_id route body row s' in
      let settled = settle r w out settings event_id route body attempt answer s'' in
      let rest = if out.raises records_result s''.clock then (s'', crashed) else settled in
      GoesOn-if attempt waits (out.raises logs_row s'.clock) (s', crashed) rest tt
        (GoesOn-if attempt waits (out.raises records_result s''.clock) (s'', crashed) settled tt
          (settle-GoesOn attempt waits answer s''))

  limit_destination-GoesOn :
      (attempt waits : ℕ) (s : World r w)
      → GoesOn attempt waits
          (limit_destination r w out settings event_id route body attempt waits s).1
  unfolding limit_destination
  limit_destination-GoesOn attempt waits s = ground (
    arith,
    attempt_delivery-GoesOn attempt waits (record s {
      windows =
          (allow_request w (limiter r w out settings event_id route body) (dest route.url) none
            s.clock s.windows).1;
    }),
  )

  limit_route-GoesOn :
      (rpm : Option ℕ) (attempt waits : ℕ) (s : World r w)
      → GoesOn attempt waits
          (limit_route_at r w out settings event_id route body rpm attempt waits s).1
  unfolding limit_route_at
  limit_route-GoesOn none attempt waits s = limit_destination-GoesOn attempt waits s
  limit_route-GoesOn (some rpm) attempt waits s = ground (
    arith,
    limit_destination-GoesOn attempt waits (record s {
      windows =
          (allow_request w (limiter r w out settings event_id route body) (route_key route.id)
            (some rpm) s.clock s.windows).1;
    }),
  )

  pub step-GoesOn :
      (attempt waits : ℕ) (s : World r w)
      → GoesOn attempt waits (step r w out settings event_id route body attempt waits s).1
  unfolding step limit_route
  step-GoesOn attempt waits s = ground (
    arith,
    limit_route-GoesOn route.rate_limit_rpm attempt waits (record s {
      redis = (is_open r (breaker r w out settings event_id route body) s.clock s.redis).1;
    }),
  )
