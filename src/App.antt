-- ===== src/App.antt =====
-- app/main.py, app/core/kafka.py and app/core/redis.py: how the application starts and stops. What
-- the brokers and the database do is the parameter `Services`.
pub mod Database
mod Examples
pub mod Started
use webhook_relay_service.Transform.Template.{split}
use webhook_relay_service.Prelude.{
  Bool, List, Text, [], codes, false, if◌then◌else◌, keep, map, none, some, strip, true, ◌∷◌,
  Option,
}
use webhook_relay_service.Model.Settings.{ConfigError, Settings, validate_production_settings}
use webhook_relay_service.Http.{filled}

-- What the Kafka client meets: whether its `start()` and its `stop()` return or raise.
pub record Broker : Type 0 where
  pub starts : Bool
  pub stops : Bool

-- Whether `init_db()` returns, and the broker.
pub record Services : Type 0 where
  pub database : Bool
  pub broker : Broker

-- An `AIOKafkaProducer`, before and after its `start()`.
pub data Client : Type 0 where
  created started : Client

-- The module variables `_producer` and `redis_client`, which are `None` or set.
pub record App : Type 0 where
  pub producer : Option Client
  pub redis_client : Bool

-- Whether `init_db()` raises is given by `Services`; App/Database says when it does.
pub data StartError : Type 0 where
  config : ConfigError → StartError
  no_database : StartError

pub data Start : Type 0 where
  stopped : StartError → Start
  running : App → Start

abbrev pub idle : App
idle = record { producer = none; redis_client = false }

abbrev pub init_redis : App → App
init_redis app = record app { redis_client = true }

-- `_producer.start()`, where `none` is an exception.
abbrev pub start_producer : Broker → App → Option App
start_producer broker app =
    if broker.starts then some (record app { producer = some started }) else none

-- `try: await _producer.stop()`, whose exception is passed over; a client that was stopped is as one
-- that never started.
abbrev pub try_stop : Broker → App → App
try_stop broker app = if broker.stops then record app { producer = some created } else app

-- A producer that does not start is stopped and forgotten, and the application goes on.
unfoldable pub init_kafka : Broker → App → App
init_kafka broker app =
    let made = record app { producer = some created } in
    elim (start_producer broker made) [
      | some connected ↦ connected
      | none ↦ record (try_stop broker made) { producer = none }
    ]

unfoldable pub close_kafka : Broker → App → App
close_kafka broker app = elim app.producer [
  | none ↦ app
  | some client ↦ record (try_stop broker app) { producer = none }
]

-- Closing the client of Redis may raise a `RuntimeError`, which is passed over.
abbrev pub close_redis : App → App
close_redis app = if app.redis_client then record app { redis_client = false } else app

-- `lifespan`, up to its `yield` and from there.
unfoldable pub start_up : Services → Settings → Start
start_up services settings = elim (validate_production_settings settings) [
  | some e ↦ stopped (config e)
  | none ↦
      if services.database
      then running (init_kafka services.broker (init_redis idle))
      else stopped no_database
]

unfoldable pub shut_down : Broker → App → App
shut_down broker app = close_redis (close_kafka broker app)

abbrev pub split_all : Text → List Text
split_all t = let (first, rest) = split b',' t in first ∷ rest

-- The origins, without the blank ones.
unfoldable pub cors_origins : Text → List Text
unfolding strip
cors_origins allowed = keep (λ origin. filled (some origin)) (map strip (split_all allowed))

-- `cors_origins or ["http://localhost:5173"]`.
abbrev pub or_local : List Text → List Text
or_local [] = codes "http://localhost:5173" ∷ []
or_local (origin ∷ rest) = origin ∷ rest

unfoldable pub allow_origins : Settings → List Text
allow_origins settings = or_local (cors_origins settings.cors_allowed_origins)
