-- ===== src/Lib.antt =====
-- A model of the webhook relay service: webhooks come in at a gateway, are stored with an outbox
-- row, go over Kafka through a transform worker, and are delivered to the URLs of the routes, with
-- retries, a circuit breaker and rate limits in Redis. A REST API manages users and workspaces.
--
-- The parts and their files (paths from the repository's root):
--   Model/Settings    app/core/config.py: `Settings` and the checks at start
--   Model/Rows, Db    app/models: the rows of the tables; the database is a record of lists
--   Model/Json        the JSON values that Python holds
--   Redis             the Redis commands that the program uses, as records of operations with laws
--                     that state the documented behaviour (expiry included); Redis/Keys has one
--                     constructor for each f-string that builds a key; RedisMemory is an instance
--   Http              `HTTPException` as a value; Http/Action is a handler on a state
--   Breaker           app/delivery/circuit_breaker.py: `CircuitBreaker`; Breaker/Racing has `is_open`
--                     command by command, with other callers between
--   RateLimiter       app/core/rate_limiter.py: `SlidingWindowRateLimiter`
--   UrlSecurity       app/core/url_security.py: which URLs are delivered to; header redaction
--   Gateway           app/gateway/handler.py: `receive_webhook`; Gateway/Guards has its checks that read
--                     no state
--   Outbox            workers/outbox_relay.py: one round of the loop is `poll`
--   Scheduler         workers/retry_scheduler.py: one round of the loop is `round`
--   Transform         app/transform/filter.py and app/transform/engine.py
--   TransformWorker   workers/transform_worker.py: `_process_event` and `_dispatch_route`; Loop is the
--                     consumer loop with its commits
--   Delivery          app/delivery/worker.py: `_deliver_with_retry`, which uses the breaker, the
--                     limiter and the URL check; Delivery/Messages has its data and
--                     Delivery/Schedule is `schedule_deliveries`
--   DeliveryWorker    workers/delivery_worker.py: `_dispatch`; Loop is the consumer loop with its
--                     concurrent tasks as a step relation on the offsets
--   Pipeline          gateway, relay and scheduler on the shared database, Redis and Kafka, as a
--                     step relation
--   Security          app/core/security.py: passwords and tokens, over `hmac`, `bcrypt` and `jose`
--   Rbac              app/middleware/rbac.py and `decode_access_token` of app/core/security.py
--   Schemas           app/schemas/api.py: the validators of pipelines and filters
--   Auth              app/api/auth.py: registration, login, logout and the limit of attempts
--   Workspaces        app/api/workspaces.py: workspaces and their members; Workspaces/Lazy has the
--                     handlers that read the relationship `membership.workspace`
--   Endpoints         app/api/endpoints.py and the updates of app/schemas/api.py; Endpoints/Requests
--                     puts the role checks before the handlers, and Endpoints/Responses is
--                     what app/schemas/api.py shows of an endpoint
--   Events            app/api/events.py: listing, the view of dead letters, replay, discarding and
--                     restoring; Events/Requests puts the role checks before the handlers
--   App               app/main.py, app/core/kafka.py and app/core/redis.py: start and stop;
--                     App/Database is app/core/database.py, its migrations in one transaction
--   Samples           concrete values that the examples use
--
-- Time is a number of milliseconds; ids are numbers, since the program only compares them; texts
-- are lists of code points. Randomness, clocks, the network, parsers of third-party libraries and
-- what other transactions do are parameters, as functions or records of functions.
--
-- `deliver` recurses on fuel, one unit for each call of `_deliver_with_retry`. Each attempt makes
-- at most six calls (five waits for the limit of the destination), so six units for each attempt
-- and six more are enough. `substitute_from` recurses on the length of the text, since each step
-- consumes a character.
--
-- In a delivery every call of Redis and every commit may raise; one that raises is taken to have
-- changed nothing. The commands of one call of the breaker or of the limiter run without another
-- caller between them, except in Breaker/Racing, which has `is_open` command by command. In the
-- API handlers and the workers a commit or a publish may fail, but Redis does not.
--
-- Not modelled: the meaning of the SQL statements of app/core/database.py, the checks of types
-- that pydantic makes for app/schemas, the interleaving of deliveries that `asyncio.gather` runs
-- (a parameter of `schedule_deliveries`, which nothing calls), signal handlers, logging, the
-- dashboard, the demo and chaos scripts and the tests.
pub mod Prelude
pub mod Model
pub mod Redis
pub mod RedisMemory
pub mod Breaker
pub mod RateLimiter
pub mod Http
pub mod UrlSecurity
pub mod Delivery
pub mod Gateway
pub mod Outbox
pub mod Scheduler
pub mod Pipeline
pub mod Rbac
pub mod Workspaces
pub mod Transform
pub mod TransformWorker
pub mod DeliveryWorker
pub mod Samples
pub mod Endpoints
pub mod Auth
pub mod Events
pub mod App
pub mod Schemas
pub mod Security
