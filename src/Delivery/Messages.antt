-- ===== src/Delivery/Messages.antt =====
-- app/delivery/worker.py: what a delivery takes, sends, writes and publishes, and what the world does
-- to it.
use webhook_relay_service.UrlSecurity.{CheckError, Headers, Net}
use webhook_relay_service.Redis.{Redis, Windows}
use webhook_relay_service.Prelude.{
  Bool, List, Option, Text, codes, false, leb, ltb, none, not, some, ℕ, ◌&&◌, ◌++◌, ◌==◌,
}
use webhook_relay_service.Model.Rows.{DeliveryAttempt}
use webhook_relay_service.Model.Json.{Value}

-- The dictionary `route`: a key that `.get` may miss is an option.
pub record RouteArgs : Type 0 where
  pub id : ℕ
  pub url : Text
  pub method : Option Text
  pub headers : Option Headers
  pub timeout_ms : Option ℕ
  pub max_retries : Option ℕ
  pub retry_backoff_ms : Option ℕ
  pub rate_limit_rpm : Option ℕ

-- `route.get(key, default)`.
abbrev pub get_or {ℓ} : {A : Type ℓ} → Option A → A → A
get_or none default = default
get_or (some a) default = a

pub record Request : Type 0 where
  pub method : Text
  pub url : Text
  pub json : Value
  pub headers : Headers
  pub timeout_ms : ℕ

-- What `client.request` returns or raises; an exception has a class name and a message.
pub data Response : Type 0 where
  response : ℕ → Text → Response
  timeout connect_error : Text → Response
  exception : Text → Text → Response

-- The value of a dead-letter message.
pub record DeadLetter : Type 0 where
  pub event_id : ℕ
  pub route_id : ℕ
  pub url : Text
  pub body : Value
  pub last_error : Option Text
  pub last_response_status : Option ℕ
  pub attempts : ℕ

-- What the world does: the answer to the n-th request and the time that it takes, the n-th
-- `random.uniform(0, delay * 0.5)`, the text of a rejected URL's exception, and what a publish
-- to Kafka does.
pub data Publish : Type 0 where
  sent runtime_error other_error : Publish

-- The awaits of a call at which Redis or the database may raise. A call of Redis that raises is
-- taken to have changed nothing, and a commit that raises stores nothing.
pub data Await : Type 0 where
  asks_breaker asks_route_limit asks_destination_limit logs_row records_result : Await

pub record Outside : Type 0 where
  pub net : Net
  pub answer : ℕ → Request → Response
  pub took_ms : ℕ → ℕ
  pub jitter_ms : ℕ → ℕ → ℕ
  pub describe : CheckError → Text × Text
  pub publish : DeadLetter → Publish
  -- whether an await raises at a time
  pub raises : Await → ℕ → Bool

-- The state that a delivery reads and changes.
pub record World (r : Redis) (w : Windows) : Type 0 where
  pub clock : ℕ
  pub redis : r.State
  pub windows : w.State
  -- the requests that went out, the rows of `delivery_attempts`, and the dead-letter topic
  pub requests : List Request
  pub attempts : List DeliveryAttempt
  pub dead_letters : List DeadLetter
  -- whether `get_kafka()` returns a producer
  pub producer : Bool

-- How a call of `_deliver_with_retry` ends: it returns, it raises, or it calls itself with an
-- attempt and a number of waits.
pub data Next : Type 0 where
  finished crashed : Next
  again : ℕ → ℕ → Next

abbrev pub max_rate_limit_waits : ℕ
max_rate_limit_waits = 5

-- The error text and the status and body of an answer.
abbrev pub error_of : Response → Option Text
error_of (response status body) = none
error_of (timeout e) = some (codes "timeout: " ++ e)
error_of (connect_error e) = some (codes "connection_error: " ++ e)
error_of (exception name e) = some (name ++ (codes ": " ++ e))

abbrev pub status_of : Response → Option ℕ
status_of (response status body) = some status
status_of _ = none

abbrev pub body_of : Response → Option Text
body_of (response status body) = some body
body_of _ = none

-- `response_status and lo <= response_status < hi`.
abbrev pub status_in : ℕ → ℕ → Option ℕ → Bool
status_in lo hi none = false
status_in lo hi (some s) = not (s == 0) && (leb lo s && ltb s hi)

-- `response_status and response_status >= 500`.
abbrev pub is_server_error : Option ℕ → Bool
is_server_error none = false
is_server_error (some s) = not (s == 0) && leb 500 s
