-- ===== src/Delivery/Rows.antt =====
-- The rows, the requests and the dead letters of a delivery, call by call.
use webhook_relay_service.Redis.Keys.{route as route_key}
use webhook_relay_service.RateLimiter.{allow_request}
use webhook_relay_service.Redis.{Redis, Windows}
use webhook_relay_service.Prelude.{
  Bool, List, [], arith, false, if◌then◌else◌, length, length-append, ltb, map, ℕ, ◌++◌, ◌+◌, ◌==◌,
  ◌∷◌, ◌≡◌, ◌≤◌, ◌-◌, ◌∙◌, true, refl, none, ap, Option, sym, some, ==_refl, not, inl, inr,
  Bool-cases, ◌⊎◌, ◌*◌, codes,
}
use webhook_relay_service.Model.Settings.{Settings}
use webhook_relay_service.Model.Rows.{DeliveryAttempt}
use webhook_relay_service.Delivery.{
  Next, Outside, Response, RouteArgs, World, again, breaker, bury, crashed, dead_letter, finished,
  settle, Value, max_retries, send, answer_row, request, attempt_delivery, log, limiter, sleep,
  limit_destination, limit_route, step, limit_route_at, Await, logs_row, records_result,
  asks_breaker, asks_route_limit, asks_destination_limit, log_then, unsent_row,
}
use webhook_relay_service.Breaker.{record_failure, is_open}
use mathlib.Core.List.{map-append, append-nil}
use webhook_relay_service.Redis.Keys.{route as route_key, dest}

abbrev pub numbers : List DeliveryAttempt → List ℕ
numbers = map (λ (row : DeliveryAttempt). row.attempt_number)

numbers-append :
    (rows : List DeliveryAttempt) (row : DeliveryAttempt)
    → numbers (rows ++ row ∷ []) ≡ numbers rows ++ row.attempt_number ∷ []
numbers-append rows row = map-append (λ (d : DeliveryAttempt). d.attempt_number) rows (row ∷ [])

-- Whether a call went on to wait for the destination's limit.
abbrev pub is_wait : ℕ → Next → Bool
is_wait attempt finished = false
is_wait attempt crashed = false
is_wait attempt (again attempt' waits) = attempt == attempt'

abbrev pub is_crash : Next → Bool
is_crash crashed = true
is_crash _ = false

-- How many dead letters a call may publish: one, and only in its last attempt.
abbrev pub buried : ℕ → ℕ → Next → ℕ
buried attempt retries finished = if ltb (attempt + 1) retries then 0 else 1
buried attempt retries _ = 0

module _ (r : Redis) (w : Windows) (out : Outside) (settings : Settings) (event_id : ℕ)
    (route : RouteArgs) (body : Value) where
  abbrev retries : ℕ
  retries = max_retries r w out settings event_id route body

  -- No call of Redis or of the database raises.
  abbrev pub NeverRaises : Type 0
  NeverRaises = (point : Await) (time : ℕ) → out.raises point time ≡ false

  -- What a call with this attempt has done when it ends or goes on: it logged its row or not, and
  -- unless something raised it did so exactly if it did not go on to wait.
  pub record Logs (attempt : ℕ) (s : World r w) (n : World r w × Next) : Type 0 where
    pub has_row : Bool
    pub numbered :
        numbers n.0.attempts ≡ numbers s.attempts ++ (if has_row then attempt ∷ [] else [])
    pub full : (NeverRaises ⊎ (is_crash n.1 ≡ false)) → has_row ≡ not (is_wait attempt n.1)
    pub sent : length n.0.requests ≤ length s.requests + (if is_wait attempt n.1 then 0 else 1)
    pub letters : length n.0.dead_letters ≤ length s.dead_letters + buried attempt retries n.1
    pub same_producer : n.0.producer ≡ s.producer

  -- A call that an exception ends, at a place where one may.
  crashed-Logs :
      (attempt : ℕ) (point : Await) (time : ℕ) (s s' : World r w)
      → s'.attempts ≡ s.attempts
      → length s'.requests ≤ length s.requests + 1
      → s'.dead_letters ≡ s.dead_letters
      → s'.producer ≡ s.producer
      → out.raises point time ≡ true
      → Logs attempt s (s', crashed)
  crashed-Logs attempt point time s s' rows requests letters producer raising = record {
    has_row = false;
    numbered = ap numbers rows ∙ sym (append-nil (numbers s.attempts));
    full = λ h. elim h [
      | inl never ↦ absurd (let e = sym raising ∙ never point time in cc)
      | inr ends ↦ absurd cc
    ];
    sent = requests;
    letters = omega (arith, ap length letters);
    same_producer = producer;
  }

  bury-Logs :
      (attempt : ℕ) (answer : Response) (s : World r w)
      → ltb (attempt + 1) retries ≡ false
      → let (s', next) = bury r w out settings event_id route body answer s in
        (s'.attempts ≡ s.attempts)
        × (s'.requests ≡ s.requests)
        × (s'.producer ≡ s.producer)
        × (length s'.dead_letters ≤ length s.dead_letters + buried attempt retries next)
        × (is_wait attempt next ≡ false)
  unfolding bury
  bury-Logs attempt answer s last = ground (
    arith,
    length-append s.dead_letters (dead_letter r w out settings event_id route body answer ∷ []),
  )

  settle-Logs :
      (attempt : ℕ) (answer : Response) (s : World r w)
      → let (s', next) = settle r w out settings event_id route body attempt answer s in
        (s'.attempts ≡ s.attempts)
        × (s'.requests ≡ s.requests)
        × (s'.producer ≡ s.producer)
        × (length s'.dead_letters ≤ length s.dead_letters + buried attempt retries next)
        × (is_wait attempt next ≡ false)
  unfolding settle
  settle-Logs attempt answer s = ground (
    arith,
    bury-Logs attempt answer (record s {
      redis = record_failure r (breaker r w out settings event_id route body) s.clock s.redis;
    }),
  )

  -- A call that logs a row and ends.
  logged :
      (attempt : ℕ) (row : DeliveryAttempt) (s : World r w)
      → row.attempt_number ≡ attempt
      → numbers (s.attempts ++ row ∷ []) ≡ numbers s.attempts ++ attempt ∷ []
  logged attempt row s e = rw (numbers-append s.attempts row, e)

  send-Logs :
      (s : World r w)
      → let s' = (send r w out settings event_id route body s).1 in
        (s'.attempts ≡ s.attempts)
        × (s'.dead_letters ≡ s.dead_letters)
        × (s'.producer ≡ s.producer)
        × (length s'.requests ≤ length s.requests + 1)
  unfolding send
  send-Logs s =
      ground (arith, length-append s.requests (request r w out settings event_id route body ∷ []))

  Logs-if :
      (attempt : ℕ) (s : World r w) (b : Bool) (x y : World r w × Next)
      → Logs attempt s x
      → Logs attempt s y
      → Logs attempt s (if b then x else y)
  Logs-if attempt s true x y hx hy = hx
  Logs-if attempt s false x y hx hy = hy

  -- A test in front of a call, at which it may raise.
  Logs-if-raises :
      (attempt : ℕ) (point : Await) (time : ℕ) (s s' : World r w) (n : World r w × Next)
      → s'.attempts ≡ s.attempts
      → length s'.requests ≤ length s.requests + 1
      → s'.dead_letters ≡ s.dead_letters
      → s'.producer ≡ s.producer
      → Logs attempt s n
      → Logs attempt s (if out.raises point time then (s', crashed) else n)
  Logs-if-raises attempt point time s s' n rows requests letters producer logs =
      elim (Bool-cases (out.raises point time)) [
        | inl raising ↦
            rw raising (crashed-Logs attempt point time s s' rows requests letters producer raising)
        | inr goes ↦ rw goes logs
      ]

  -- A row was logged, and then the call ended at its record of the result, or went on to settle.
  logged-Logs :
      (attempt : ℕ) (row : DeliveryAttempt) (s s' : World r w) (n : World r w × Next)
      → row.attempt_number ≡ attempt
      → s'.attempts ≡ s.attempts
      → is_wait attempt n.1 ≡ false
      → n.0.attempts ≡ s'.attempts ++ row ∷ []
      → length n.0.requests ≤ length s.requests + 1
      → length n.0.dead_letters ≤ length s.dead_letters + buried attempt retries n.1
      → n.0.producer ≡ s.producer
      → Logs attempt s n
  logged-Logs attempt row s s' n number rows ends added requests letters producer = record {
    has_row = true;
    numbered =
        ap numbers added ∙ logged attempt row s' number ∙ ap (λ l. numbers l ++ attempt ∷ []) rows;
    full = λ h. rw ends refl;
    sent = rw ends requests;
    letters = letters;
    same_producer = producer;
  }

  attempt_delivery-Logs :
      (attempt : ℕ) (s : World r w)
      → Logs attempt s (attempt_delivery r w out settings event_id route body attempt s)
  unfolding attempt_delivery
  attempt_delivery-Logs attempt s =
      let (answer, s') = send r w out settings event_id route body s in
      let row =
        answer_row r w out settings event_id route body attempt answer (s'.clock - s.clock) in
      let s'' : World r w = log r w out settings event_id route body row s' in
      let settled = settle r w out settings event_id route body attempt answer s'' in
      let sent = send-Logs s in
      let h = settle-Logs attempt answer s'' in
      let on_settled =
        logged-Logs attempt row s s' settled refl sent.0 h.4 h.0
          (omega (arith, ap length h.1, sent.3)) (omega (arith, h.3, ap length sent.1))
          (h.2 ∙ sent.2) in
      let on_crash =
        logged-Logs attempt row s s' (s'', crashed) refl sent.0 refl refl sent.3
          (omega (arith, ap length sent.1)) sent.2 in
      Logs-if-raises attempt logs_row s'.clock s s' _ sent.0 sent.3 sent.1 sent.2 (
        Logs-if attempt s (out.raises records_result s''.clock) (s'', crashed) settled on_crash
          on_settled)

  -- A call that sends nothing: it logs a row and stops, or goes on to the next attempt.
  unsent-Logs :
      (attempt : ℕ) (row : DeliveryAttempt) (s : World r w) (next : Next)
      → row.attempt_number ≡ attempt
      → is_wait attempt next ≡ false
      → Logs attempt s (log r w out settings event_id route body row s, next)
  unsent-Logs attempt row s next e ends =
      logged-Logs attempt row s s (log r w out settings event_id route body row s, next) e refl ends
        refl (omega arith) (omega arith) refl

  -- Such a call, behind the commit of its row.
  log_then-Logs :
      (attempt : ℕ) (row : DeliveryAttempt) (s : World r w) (rest : World r w → World r w × Next)
      → Logs attempt s (rest (log r w out settings event_id route body row s))
      → Logs attempt s (log_then r w out settings event_id route body row s rest)
  log_then-Logs attempt row s rest logs =
      Logs-if-raises attempt logs_row s.clock s s _ refl (omega arith) refl refl logs

  -- A call that goes on to wait.
  wait-Logs :
      (attempt waits ms : ℕ) (s : World r w)
      → Logs attempt s (sleep r w out settings event_id route body ms s, again attempt waits)
  wait-Logs attempt waits ms s = record {
    has_row = false;
    numbered = sym (append-nil (numbers s.attempts));
    full = λ h. rw ==_refl refl;
    sent = omega arith;
    letters = omega arith;
    same_producer = refl;
  }

  -- The clock, the breakers and the windows are nothing to the rows.
  same-Logs :
      (attempt : ℕ) (s s' : World r w) (n : World r w × Next)
      → s'.attempts ≡ s.attempts
      → s'.requests ≡ s.requests
      → s'.dead_letters ≡ s.dead_letters
      → s'.producer ≡ s.producer
      → Logs attempt s' n
      → Logs attempt s n
  same-Logs attempt s s' n rows requests letters producer logs = record {
    has_row = logs.has_row;
    numbered =
        logs.numbered ∙ ap (λ l. numbers l ++ (if logs.has_row then attempt ∷ [] else [])) rows;
    full = logs.full;
    sent = omega (arith, logs.sent, ap length requests);
    letters = omega (arith, logs.letters, ap length letters);
    same_producer = logs.same_producer ∙ producer;
  }

  limit_destination-Logs :
      (attempt waits : ℕ) (s : World r w)
      → Logs attempt s (limit_destination r w out settings event_id route body attempt waits s)
  unfolding limit_destination
  limit_destination-Logs attempt waits s =
      let (allowed, windows) =
        allow_request w (limiter r w out settings event_id route body) (dest route.url) none s.clock
          s.windows in
      let s' : World r w = record s { windows = windows } in
      Logs-if-raises attempt asks_destination_limit s.clock s s _ refl (omega arith) refl refl (
        same-Logs attempt s s' _ refl refl refl refl (
          Logs-if attempt s' allowed _ _ (attempt_delivery-Logs attempt s') (
            Logs-if attempt s' _ _ _
              (log_then-Logs attempt _ s' (λ s''. (s'', finished))
                (unsent-Logs attempt _ s' finished refl refl))
              (wait-Logs attempt (waits + 1) 1000 s'))))

  limit_route-Logs :
      (rpm : Option ℕ) (attempt waits : ℕ) (s : World r w)
      → Logs attempt s (limit_route_at r w out settings event_id route body rpm attempt waits s)
  unfolding limit_route_at
  limit_route-Logs none attempt waits s = limit_destination-Logs attempt waits s
  limit_route-Logs (some rpm) attempt waits s =
      let (allowed, windows) =
        allow_request w (limiter r w out settings event_id route body) (route_key route.id)
          (some rpm) s.clock s.windows in
      let s' : World r w = record s { windows = windows } in
      Logs-if-raises attempt asks_route_limit s.clock s s _ refl (omega arith) refl refl (
        same-Logs attempt s s' _ refl refl refl refl (
          Logs-if attempt s' allowed _ _ (limit_destination-Logs attempt waits s') (
            log_then-Logs attempt _ s' (λ s''. (s'', finished))
              (unsent-Logs attempt _ s' finished refl refl))))

  pub step-Logs :
      (attempt waits : ℕ) (s : World r w)
      → Logs attempt s (step r w out settings event_id route body attempt waits s)
  unfolding step limit_route
  step-Logs attempt waits s =
      let (refused, redis) =
        is_open r (breaker r w out settings event_id route body) s.clock s.redis in
      let s' : World r w = record s { redis = redis } in
      let row =
        unsent_row r w out settings event_id route body attempt (codes "circuit_breaker_open") in
      let more = ltb (attempt + 1) retries in
      let pause =
        sleep r w out settings event_id route body (settings.circuit_breaker_cooldown_s * 1000) in
      let rest : World r w → World r w × Next =
        λ s''. if more then (pause s'', again (attempt + 1) 0) else (s'', finished) in
      let s'' : World r w = log r w out settings event_id route body row s' in
      let limited = limit_route r w out settings event_id route body attempt waits s' in
      Logs-if-raises attempt asks_breaker s.clock s s _ refl (omega arith) refl refl (
        same-Logs attempt s s' _ refl refl refl refl (
          Logs-if attempt s' refused (log_then r w out settings event_id route body row s' rest)
            limited
            (log_then-Logs attempt row s' rest (
              Logs-if attempt s' more (pause s'', again (attempt + 1) 0) (s'', finished)
                (logged-Logs attempt row s' s' (pause s'', again (attempt + 1) 0) refl refl
                  (ground arith) refl (omega arith) (omega arith) refl)
                (unsent-Logs attempt row s' finished refl refl)))
            (limit_route-Logs route.rate_limit_rpm attempt waits s')))
