-- ===== src/Pipeline/Examples.antt =====
-- From a system with one event: a webhook, then a poll of the relay.
use webhook_relay_service.TransformWorker.{is_active_route}
use webhook_relay_service.Pipeline.EndToEnd.{IsDelivered, accepted-IsDelivered}
use webhook_relay_service.Samples.{failing, world, route_row}
use webhook_relay_service.Redis.Keys.{key_eq, window_eq}
use webhook_relay_service.Redis.{set_nx}
use webhook_relay_service.RateLimiter.{allow_request, new_limiter, pipeline}
use webhook_relay_service.Pipeline.Onward.{IsOnward, accepted-IsOnward}
use webhook_relay_service.Outbox.Published.{IsUndisturbed}
use webhook_relay_service.Model.Db.{event_by_id, endpoint_by_id}
use webhook_relay_service.Http.{ok}
use webhook_relay_service.Gateway.{
  accepted, check_digest, claim_key, store_event, check_schema, check_rate, client_ip_allowed,
  admit, after_prefix, read_limited_body, check_signature, compare_digest,
}
use webhook_relay_service.Transform.{Tools, result}
use webhook_relay_service.Scheduler.{RoundWorld, round, select_retries}
use webhook_relay_service.Samples.{codecs, gate, moment, webhook, db}
use webhook_relay_service.RedisMemory.{empty, empty_windows, memory, memory_windows}
use webhook_relay_service.Prelude.{[], false, none, refl, true, ◌≡◌, arith, text_eq, some}
use webhook_relay_service.Pipeline.Safety.{Reach-IsSafe, scheduler_idle}
use webhook_relay_service.Pipeline.{
  IsSafe, Reach, System, here, next, relay, relay_of, with_gate, with_relay, ingress,
}
use webhook_relay_service.Outbox.{PollWorld, poll}
use webhook_relay_service.Model.Settings.{default_settings}
use webhook_relay_service.Gateway.{receive_webhook}

abbrev Sys : Type 0
Sys = System memory memory_windows codecs default_settings

abbrev start : Sys
start = record { db = db; redis = empty; windows = empty_windows; messages = [] }

start-IsSafe : IsSafe memory memory_windows codecs default_settings start
start-IsSafe = record { none_failed = (refl, tt); sound = tt }

abbrev received : Sys
received =
    with_gate memory memory_windows codecs default_settings start
      (receive_webhook memory memory_windows codecs default_settings (moment 100000 true) webhook
        gate).1

abbrev poll_world : PollWorld
poll_world = record {
  locked = λ id. false;
  stopped = λ n. false;
  publish_error = λ n. none;
  commits = true;
}

abbrev relayed : Sys
relayed =
    with_relay memory memory_windows codecs default_settings received
      (poll poll_world (relay_of memory memory_windows codecs default_settings received))

path : Reach memory memory_windows codecs default_settings start relayed
path = next (next here (ingress (moment 100000 true) webhook refl)) (relay poll_world refl)

Reach-IsSafe_example : IsSafe memory memory_windows codecs default_settings relayed
Reach-IsSafe_example = Reach-IsSafe memory memory_windows codecs default_settings start-IsSafe path

abbrev round_world : RoundWorld
round_world = record {
  producer = true;
  now = 200000;
  locked = λ id. false;
  published = λ n. true;
  failure_time = λ n. 200000;
  commits = true;
}

scheduler_idle_example :
    (select_retries round_world relayed.db ≡ [])
    × (round default_settings round_world
          (relay_of memory memory_windows codecs default_settings relayed)
        ≡ relay_of memory memory_windows codecs default_settings relayed)
scheduler_idle_example =
    scheduler_idle memory memory_windows codecs default_settings round_world start-IsSafe path

taken :
    (receive_webhook memory memory_windows codecs default_settings
      (moment 100000 true)
      webhook
      gate).0
    ≡ ok (accepted 11)
unfolding receive_webhook admit read_limited_body check_rate allow_request pipeline window_eq key_eq
    check_signature check_digest after_prefix compare_digest check_schema claim_key set_nx
    store_event endpoint_by_id client_ip_allowed new_limiter text_eq
taken = refl

undisturbed : IsUndisturbed poll_world
undisturbed = record { free = λ id. refl; going = λ n. refl; sends = λ n. refl }

abbrev tools : Tools
tools = record {
  search = λ expression value. result value;
  str_of = λ value. [];
  parse_float = λ t. none;
  divide = λ value divisor. none;
}

fresh : event_by_id 11 db ≡ none
unfolding event_by_id
fresh = refl

accepted-IsOnward_example :
    IsOnward memory memory_windows codecs default_settings
      (moment 100000 true)
      tools
      webhook
      db
      start.windows
      (poll poll_world (relay_of memory memory_windows codecs default_settings received))
accepted-IsOnward_example =
    accepted-IsOnward memory memory_windows codecs default_settings (moment 100000 true) tools
      webhook 11 start poll_world taken fresh undisturbed (omega arith)

has_place : codecs.parse_uuid webhook.endpoint_id ≡ some 4
has_place = refl

its_route : is_active_route 4 route_row ≡ true
unfolding is_active_route
its_route = refl

accepted-IsDelivered_example :
    IsDelivered memory memory_windows codecs default_settings
      (moment 100000 true)
      tools
      failing
      webhook
      route_row
      db
      start.windows
      (poll poll_world (relay_of memory memory_windows codecs default_settings received))
      (λ m. true)
      20
      true
      (world false)
accepted-IsDelivered_example =
    accepted-IsDelivered memory memory_windows codecs default_settings (moment 100000 true) tools
      failing webhook 11 4 start poll_world [] [] route_row (λ m. true) 20 true (world false) taken
      has_place fresh undisturbed (omega arith) refl its_route refl refl refl (λ m. refl) refl
      (omega arith)
