-- ===== src/DeliveryWorker/Examples.antt =====
-- A message whose deliveries fail.
use webhook_relay_service.DeliveryWorker.Overtaken.{overtaken-IsLost}
use webhook_relay_service.DeliveryWorker.Loop.{
  Consumer, Reach, receive, end_task, restart, is_in, receives, here, next,
}
use webhook_relay_service.DeliveryWorker.Offsets.{start}
use webhook_relay_service.TransformWorker.{Transformed}
use webhook_relay_service.Prelude.{[], codes, false, refl, true, ◌≡◌, ◌∷◌, List}
use webhook_relay_service.Model.Json.{null}
use webhook_relay_service.DeliveryWorker.{is_well_formed}

abbrev message : Transformed
message = record {
  topic = codes "transformed-events";
  event_id = 9;
  route_id = 8;
  url = codes "https://shop.example/hook";
  method = codes "POST";
  headers = [];
  body = null;
  timeout_ms = 10000;
  max_retries = 2;
  retry_backoff_ms = 1000;
}

abbrev topic : List Transformed
topic = message ∷ message ∷ []

-- Both messages have their tasks.
abbrev both_running : Consumer
both_running = receive false message (receive false message start)

both_reached : Reach topic start both_running
unfolding receive is_well_formed
both_reached =
    next (next here (receives false message refl refl refl)) (receives false message refl refl refl)

overtaken-IsLost_example : is_in 0 (restart (end_task 1 false true both_running)).finished ≡ false
unfolding receive is_well_formed
overtaken-IsLost_example =
    overtaken-IsLost topic 0 1 both_running (restart (end_task 1 false true both_running))
      both_reached refl refl refl refl here
