-- ===== src/Delivery/Examples.antt =====
-- A delivery to a destination that fails, on servers in memory.
use webhook_relay_service.Transform.Engine.{apply_from, apply_pipeline, apply_step}
use webhook_relay_service.Transform.{Tools, piped, raises, result, value_error}
use webhook_relay_service.Delivery.Schedule.{
  Coroutine, Ended, Scheduled, coroutine, schedule_deliveries, schedule_deliveries-Ended, tasks_for,
}
use webhook_relay_service.Redis.Keys.{key_eq, window_eq}
use webhook_relay_service.UrlSecurity.{
  check_addresses, is_blocked_host, is_blocked_ip, resolve_host, validate_delivery_url,
  validate_delivery_url_for_request,
}
use webhook_relay_service.Samples.{failing, route_args_of_shop, world, event}
use webhook_relay_service.RedisMemory.{memory, memory_windows}
use webhook_relay_service.RateLimiter.{allow_request, pipeline}
use webhook_relay_service.Prelude.{
  Bool, Option, [], arith, codes, false, length, lower, none, refl, some, text_eq, true, ℕ, ◌≡◌,
  ◌≢◌, ◌∙◌, sym, ap, List, ◌∷◌, ◌++◌, Text,
}
use webhook_relay_service.Model.Settings.{default_settings}
use webhook_relay_service.Model.Json.{null, field, str, end, get}
use webhook_relay_service.Delivery.Safety.{AreSafe, sent-IsDeliverable}
use webhook_relay_service.Delivery.Run.{Delivered, deliver-Delivered}
use webhook_relay_service.Delivery.Outcomes.{Outcome, kind_of, settle-Outcome}
use webhook_relay_service.Delivery.{
  World, attempt_delivery, bury, deliver, limit_destination, limit_route, response, send, settle,
  step, Request,
}
use webhook_relay_service.Breaker.{is_open, record_failure, record_success, new}

abbrev run : ℕ → World memory memory_windows → Option (World memory memory_windows × Bool)
run fuel s =
    deliver memory memory_windows failing default_settings 9 route_args_of_shop null fuel 0 0 s

deliver-Delivered_example :
    (result : World memory memory_windows × Bool) × (run 20 (world true) ≡ some result)
    × Delivered memory memory_windows failing default_settings 9 route_args_of_shop null 0 result.1
        (world true)
        result.0
deliver-Delivered_example =
    deliver-Delivered memory memory_windows failing default_settings 9 route_args_of_shop null 20 0
      0 (world true) (omega arith)

settle-Outcome_example :
    Outcome memory memory_windows failing default_settings 9 route_args_of_shop null 1
      (world true)
      (kind_of (response 500 []))
      (response 500 [])
      (settle memory memory_windows failing default_settings 9 route_args_of_shop null 1
        (response 500 [])
        (world true))
settle-Outcome_example =
    settle-Outcome memory memory_windows failing default_settings 9 route_args_of_shop null 1
      (world true) (response 500 []) (λ n d. omega arith)

-- The world after the delivery: two requests, and a dead letter.
abbrev outcome : Option (World memory memory_windows × Bool) → World memory memory_windows × Bool
outcome none = (world true, true)
outcome (some pair) = pair

ran : (producer : Bool) → run 20 (world producer) ≡ some (outcome (run 20 (world producer)))
unfolding deliver step limit_route limit_destination attempt_delivery settle send bury allow_request
    pipeline window_eq key_eq new is_open record_failure record_success
    validate_delivery_url_for_request validate_delivery_url is_blocked_host is_blocked_ip
    check_addresses resolve_host lower text_eq
ran true = refl
ran false = refl

abbrev sent_and_buried : World memory memory_windows → ℕ × ℕ
sent_and_buried s = (length s.requests, length s.dead_letters)

two_requests : sent_and_buried (outcome (run 20 (world true))).0 ≡ (2, 1)
unfolding deliver step limit_route limit_destination attempt_delivery settle send bury allow_request
    pipeline window_eq key_eq new is_open record_failure record_success
    validate_delivery_url_for_request validate_delivery_url is_blocked_host is_blocked_ip
    check_addresses resolve_host lower text_eq
two_requests = refl

went_out : (outcome (run 20 (world true))).0.requests ≢ (world true).requests
went_out e =
    let none_sent : 2 ≡ 0 =
      sym (ap (λ (p : ℕ × ℕ). p.0) two_requests) ∙ ap (λ (l : List Request). length l) e in
    omega (arith, none_sent)

sent-IsDeliverable_example :
    AreSafe failing default_settings [] (outcome (run 20 (world true))).0.requests
sent-IsDeliverable_example =
    sent-IsDeliverable memory memory_windows failing default_settings 9 route_args_of_shop null 20 0
      0 (world true) (outcome (run 20 (world true))) (ran true)

abbrev no_tools : Tools
no_tools = record {
  search = λ expression value. result value;
  str_of = λ value. codes "x";
  parse_float = λ t. none;
  divide = λ value divisor. none;
}

abbrev one_step : Text → Scheduled
one_step name = record {
  args = route_args_of_shop;
  transform_pipeline = some (field (codes "type") (str name) end ∷ []);
}

abbrev plain_route : Scheduled
plain_route = record { args = route_args_of_shop; transform_pipeline = none }

abbrev started : List Coroutine → List Coroutine → List Coroutine
started tasks s = s ++ tasks

schedule_deliveries-Ended_example :
    Ended no_tools event started (one_step (codes "passthrough") ∷ plain_route ∷ []) [] (
      schedule_deliveries no_tools event started
        (one_step (codes "passthrough") ∷ plain_route ∷ [])
        [])
schedule_deliveries-Ended_example =
    schedule_deliveries-Ended no_tools event started
      (one_step (codes "passthrough") ∷ plain_route ∷ []) []

-- Both routes get a coroutine; a route with an unknown step after them stops all three.
two_started :
    schedule_deliveries no_tools event started
      (one_step (codes "passthrough") ∷ plain_route ∷ [])
      []
    ≡ piped (
        coroutine no_tools event plain_route event.request_body
        ∷ coroutine no_tools event plain_route event.request_body
        ∷ [])
unfolding schedule_deliveries tasks_for apply_pipeline apply_from apply_step text_eq get
two_started = refl

none_started :
    schedule_deliveries no_tools event started
      (one_step (codes "passthrough") ∷ plain_route ∷ one_step (codes "nothing") ∷ [])
      []
    ≡ raises (value_error 0)
unfolding schedule_deliveries tasks_for apply_pipeline apply_from apply_step text_eq get
none_started = refl
