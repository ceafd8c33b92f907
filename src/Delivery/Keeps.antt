-- ===== src/Delivery/Keeps.antt =====
-- Invariants of a delivery over the requests, the dead letters and the producer: only `send` and
-- `bury` touch these.
use webhook_relay_service.Model.Rows.{DeliveryAttempt}
use webhook_relay_service.RateLimiter.{allow_request}
use webhook_relay_service.Http.{filled}
use mathlib.Core.Option.{some-injective}
use mathlib.Core.Path.{subst}
use webhook_relay_service.Redis.{Redis, Windows}
use webhook_relay_service.Prelude.{
  Bool, List, Option, false, if◌then◌else◌, none, some, suc, true, zero, ℕ, ◌≡◌, ◌+◌, ◌||◌, ltb,
  leb, ◌-◌, ◌*◌, codes,
}
use webhook_relay_service.Model.Settings.{Settings}
use webhook_relay_service.Delivery.{
  DeadLetter, Next, Outside, Request, Response, RouteArgs, World, attempt_delivery, breaker, bury,
  deliver, limit_destination, limit_route, send, settle, step, Value, limit_route_at, finished,
  crashed, again, is_server_error, error_of, status_of, status_in, max_retries,
  max_rate_limit_waits, limiter, answer_row, log, logs_row, records_result, Await, unsent_row,
  sleep, log_then, asks_breaker, asks_route_limit, asks_destination_limit,
}
use webhook_relay_service.Breaker.{record_failure, is_open}
use webhook_relay_service.Redis.Keys.{route as route_key, dest}

module _ (r : Redis) (w : Windows) (out : Outside) (settings : Settings) (event_id : ℕ)
    (route : RouteArgs) (body : Value) (Q : List Request → List DeadLetter → Bool → Type 0) where
  -- The invariant of a state, and of a call's end.
  abbrev pub Holds : World r w → Type 0
  Holds s = Q s.requests s.dead_letters s.producer

  record Ends (n : World r w × Next) : Type 0 where
    at : Holds n.0

  Ends-if : (b : Bool) (x y : World r w × Next) → Ends x → Ends y → Ends (if b then x else y)
  Ends-if true x y hx hy = hx
  Ends-if false x y hx hy = hy

  -- A test in front of a call, at which it may raise.
  Ends-if-raises :
      (point : Await) (time : ℕ) (s' : World r w) (n : World r w × Next)
      → Holds s'
      → Ends n
      → Ends (if out.raises point time then (s', crashed) else n)
  Ends-if-raises point time s' n h ends =
      Ends-if (out.raises point time) (s', crashed) n (record { at = h }) ends

  Ends-log_then :
      (row : DeliveryAttempt) (s' : World r w) (rest : World r w → World r w × Next)
      → Holds s'
      → Ends (rest (log r w out settings event_id route body row s'))
      → Ends (log_then r w out settings event_id route body row s' rest)
  Ends-log_then row s' rest h ends = Ends-if-raises logs_row s'.clock s' _ h ends

  module _
      (send_keeps : (s : World r w)
        → Holds s
        → Holds (send r w out settings event_id route body s).1)
      (bury_keeps : (answer : Response) (s : World r w)
        → Holds s
        → Holds (bury r w out settings event_id route body answer s).0) where
    settle-Ends :
        (attempt : ℕ) (answer : Response) (s : World r w)
        → Holds s
        → Ends (settle r w out settings event_id route body attempt answer s)
    unfolding settle
    settle-Ends attempt answer s h =
        let s' : World r w = record s {
          redis = record_failure r (breaker r w out settings event_id route body) s.clock s.redis;
        } in
        let status = status_of answer in
        Ends-if (status_in 200 300 status) _ _ (record { at = h })
          (Ends-if (status_in 400 500 status) _ _ (record { at = h })
            (Ends-if (filled (error_of answer) || is_server_error status) _ _
              (Ends-if (ltb (attempt + 1) (max_retries r w out settings event_id route body)) _ _
                (record { at = h }) (record { at = bury_keeps answer s' h }))
              (record { at = h })))

    attempt_delivery-Ends :
        (attempt : ℕ) (s : World r w)
        → Holds s
        → Ends (attempt_delivery r w out settings event_id route body attempt s)
    unfolding attempt_delivery
    attempt_delivery-Ends attempt s h =
        let (answer, s') = send r w out settings event_id route body s in
        let row =
          answer_row r w out settings event_id route body attempt answer (s'.clock - s.clock) in
        let s'' : World r w = log r w out settings event_id route body row s' in
        let settled = settle r w out settings event_id route body attempt answer s'' in
        let kept = send_keeps s h in
        Ends-if-raises logs_row s'.clock s' _ kept (
          Ends-if-raises records_result s''.clock s'' settled kept
            (settle-Ends attempt answer s'' kept))

    limit_destination-Ends :
        (attempt waits : ℕ) (s : World r w)
        → Holds s
        → Ends (limit_destination r w out settings event_id route body attempt waits s)
    unfolding limit_destination
    limit_destination-Ends attempt waits s h =
        let (allowed, windows) =
          allow_request w (limiter r w out settings event_id route body) (dest route.url) none
            s.clock s.windows in
        let s' : World r w = record s { windows = windows } in
        Ends-if-raises asks_destination_limit s.clock s _ h (
          Ends-if allowed _ _ (attempt_delivery-Ends attempt s' h) (
            Ends-if (leb max_rate_limit_waits waits) _ _
              (Ends-log_then _ s' (λ s''. (s'', finished)) h (record { at = h }))
              (record { at = h })))

    limit_route-Ends :
        (rpm : Option ℕ) (attempt waits : ℕ) (s : World r w)
        → Holds s
        → Ends (limit_route_at r w out settings event_id route body rpm attempt waits s)
    unfolding limit_route_at
    limit_route-Ends none attempt waits s h = limit_destination-Ends attempt waits s h
    limit_route-Ends (some rpm) attempt waits s h =
        let (allowed, windows) =
          allow_request w (limiter r w out settings event_id route body) (route_key route.id)
            (some rpm) s.clock s.windows in
        let s' : World r w = record s { windows = windows } in
        Ends-if-raises asks_route_limit s.clock s _ h (
          Ends-if allowed _ _ (limit_destination-Ends attempt waits s' h)
            (Ends-log_then _ s' (λ s''. (s'', finished)) h (record { at = h })))

    step-Ends :
        (attempt waits : ℕ) (s : World r w)
        → Holds s
        → Ends (step r w out settings event_id route body attempt waits s)
    unfolding step limit_route
    step-Ends attempt waits s h =
        let (refused, redis) =
          is_open r (breaker r w out settings event_id route body) s.clock s.redis in
        let s' : World r w = record s { redis = redis } in
        let row =
          unsent_row r w out settings event_id route body attempt (codes "circuit_breaker_open") in
        let more = ltb (attempt + 1) (max_retries r w out settings event_id route body) in
        let pause =
          sleep r w out settings event_id route body (settings.circuit_breaker_cooldown_s * 1000) in
        let rest : World r w → World r w × Next =
          λ s''. if more then (pause s'', again (attempt + 1) 0) else (s'', finished) in
        let s'' : World r w = log r w out settings event_id route body row s' in
        Ends-if-raises asks_breaker s.clock s _ h (
          Ends-if refused (log_then r w out settings event_id route body row s' rest)
            (limit_route r w out settings event_id route body attempt waits s')
            (Ends-log_then row s' rest h (
              Ends-if more (pause s'', again (attempt + 1) 0) (s'', finished) (record { at = h })
                (record { at = h })))
            (limit_route-Ends route.rate_limit_rpm attempt waits s' h))

    Ends-then :
        (n : World r w × Next) (rest : ℕ → ℕ → World r w → Option (World r w × Bool))
        (result : World r w × Bool)
        → (elim n.1 [
          | finished ↦ some (n.0, false)
          | crashed ↦ some (n.0, true)
          | again attempt' waits' ↦ rest attempt' waits' n.0
        ])
          ≡ some result
        → Ends n
        → ((attempt' waits' : ℕ) (s : World r w)
            → rest attempt' waits' s ≡ some result
            → Holds s
            → Holds result.0)
        → Holds result.0
    Ends-then (s, finished) rest result e h ih =
        subst (λ (x : World r w × Bool). Holds x.0) (some-injective _ _ e) h.at
    Ends-then (s, crashed) rest result e h ih =
        subst (λ (x : World r w × Bool). Holds x.0) (some-injective _ _ e) h.at
    Ends-then (s, again a' w') rest result e h ih = ih a' w' s e h.at

    -- The invariant holds after the whole delivery.
    pub deliver-Holds :
        (fuel attempt waits : ℕ) (s : World r w) (result : World r w × Bool)
        → deliver r w out settings event_id route body fuel attempt waits s ≡ some result
        → Holds s
        → Holds result.0
    unfolding deliver
    deliver-Holds zero attempt waits s result e h = cc
    deliver-Holds (suc fuel) attempt waits s result e h =
        Ends-then (step r w out settings event_id route body attempt waits s)
          (deliver r w out settings event_id route body fuel) result e (step-Ends attempt waits s h)
          (λ a' w' s' e' h'. deliver-Holds fuel a' w' s' result e' h')
