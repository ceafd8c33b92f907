-- ===== src/Delivery/Outcomes.antt =====
-- What follows an answer, by its status: an independent table of the outcomes.
use mathlib.Core.List.{append-nil}
use webhook_relay_service.Redis.{Redis, Windows}
use webhook_relay_service.Prelude.{
  Text, [], codes, if◌then◌else◌, ltb, refl, some, true, ℕ, ◌*◌, ◌++◌, ◌+◌, ◌/◌, ◌<◌, ◌^◌, ◌∷◌, ◌≡◌,
  ◌≤◌, length, arith, ◌⊎◌, Bool, List,
}
use webhook_relay_service.Model.Settings.{Settings}
use webhook_relay_service.Http.{filled}
use webhook_relay_service.Delivery.{
  Next, Outside, Response, RouteArgs, World, again, breaker, bury, connect_error, dead_letter,
  exception, finished, get_or, response, sent, settle, timeout, Value, max_retries, Publish,
  crashed, DeadLetter,
}
use webhook_relay_service.Breaker.{record_failure, record_success}

-- The kinds of answers: success, a client error, an answer that is worth another attempt (a
-- server error or an exception), and any other status.
pub data Kind : Type 0 where
  success client_error retryable other : Kind

abbrev pub kind_of : Response → Kind
kind_of (response status content) =
    if ltb status 200
    then other
    else if ltb status 300
    then success
    else if ltb status 400
    then other
    else if ltb status 500
    then client_error
    else retryable
kind_of _ = retryable

filled-append : (name e : Text) → filled (some (name ++ (codes ": " ++ e))) ≡ true
filled-append [] e = refl
filled-append (c ∷ name) e = refl

module _ (r : Redis) (w : Windows) (out : Outside) (settings : Settings) (event_id : ℕ)
    (route : RouteArgs) (body : Value) (attempt : ℕ) (s : World r w) where
  abbrev retries : ℕ
  retries = max_retries r w out settings event_id route body

  abbrev delay : ℕ
  delay = get_or route.retry_backoff_ms settings.retry_backoff_ms * 2 ^ attempt

  abbrev publish : Response → Publish
  publish answer = out.publish (dead_letter r w out settings event_id route body answer)

  -- How the last attempt ends, and what it publishes, by the producer and its publish.
  abbrev pub end_of : Bool → Publish → Next
  end_of true Publish.other_error = crashed
  end_of _ _ = finished

  abbrev pub letters_of : Bool → Publish → Response → List DeadLetter
  letters_of true sent answer = dead_letter r w out settings event_id route body answer ∷ []
  letters_of _ _ answer = []

  -- What the table says of the state and the end of the call.
  abbrev pub Outcome : Kind → Response → World r w × Next → Type 0
  Outcome success answer (s', next) =
      (next ≡ finished)
      × (s' ≡ record s {
        redis = record_success r (breaker r w out settings event_id route body) s.clock s.redis;
      })
  Outcome client_error answer (s', next) =
      (next ≡ finished)
      × (s' ≡ record s {
        redis = record_failure r (breaker r w out settings event_id route body) s.clock s.redis;
      })
  Outcome other answer (s', next) =
      (next ≡ finished)
      × (s' ≡ record s {
        redis = record_failure r (breaker r w out settings event_id route body) s.clock s.redis;
      })
  Outcome retryable answer (s', next) =
      (s'.redis ≡ record_failure r (breaker r w out settings event_id route body) s.clock s.redis)
      × (((attempt + 1 < retries)
            × (next ≡ again (attempt + 1) 0)
            × (s.clock + delay ≤ s'.clock)
            × (s'.clock ≤ s.clock + delay + delay / 2)
            × (s'.dead_letters ≡ s.dead_letters))
          ⊎ ((retries ≤ attempt + 1)
              × (next ≡ end_of s.producer (publish answer))
              × (s'.clock ≡ s.clock)
              × (s'.dead_letters
                  ≡ s.dead_letters ++ letters_of s.producer (publish answer) answer)))

  -- After an answer: a success closes the breaker; a client error and a status outside 200 to 299
  -- and 400 on end the delivery with a failure recorded and nothing published; a server error or
  -- an exception is tried again after the backoff, at most half as long again, or, in the last
  -- attempt, becomes a dead letter if there is a producer and its publish succeeds. The jitter is
  -- at most half the delay.
  pub settle-Outcome :
      (answer : Response)
      → ((n d : ℕ) → out.jitter_ms n d ≤ d / 2)
      → Outcome
          (kind_of answer)
          answer
          (settle r w out settings event_id route body attempt answer s)
  unfolding settle bury
  settle-Outcome (response status content) jitter =
      ground (arith, jitter (length s.attempts) delay, append-nil s.dead_letters)
  settle-Outcome (timeout e) jitter =
      ground (arith, jitter (length s.attempts) delay, append-nil s.dead_letters)
  settle-Outcome (connect_error e) jitter =
      ground (arith, jitter (length s.attempts) delay, append-nil s.dead_letters)
  settle-Outcome (exception name e) jitter =
      ground
        (arith, jitter (length s.attempts) delay, append-nil s.dead_letters, filled-append name e)
