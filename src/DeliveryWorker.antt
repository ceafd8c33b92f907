-- ===== src/DeliveryWorker.antt =====
-- workers/delivery_worker.py: from a transformed event to its delivery. The worker starts the
-- database and Redis but no Kafka producer.
pub mod Offsets
pub mod Overtaken
pub mod Loop
mod Examples
pub mod Dispatch
use webhook_relay_service.TransformWorker.{Transformed}
use webhook_relay_service.Redis.{Redis, Windows}
use webhook_relay_service.Prelude.{Bool, Option, if◌then◌else◌, none, not, some, ℕ, ◌&&◌}
use webhook_relay_service.Model.Settings.{Settings}
use webhook_relay_service.Http.{filled}
use webhook_relay_service.Delivery.{Outside, RouteArgs, World, deliver}

-- The test of the loop; a message that lacks an id has none of this type.
unfoldable pub is_well_formed : Transformed → Bool
is_well_formed data' = filled (some data'.url)

-- The dictionary `route` of `_dispatch`.
unfoldable pub route_args : Transformed → RouteArgs
route_args data' = record {
  id = data'.route_id;
  url = data'.url;
  method = some data'.method;
  headers = some data'.headers;
  timeout_ms = some data'.timeout_ms;
  max_retries = some data'.max_retries;
  retry_backoff_ms = some data'.retry_backoff_ms;
  rate_limit_rpm = none;
}

-- Whether the offset of the message was committed.
pub data Offset : Type 0 where
  committed uncommitted skipped : Offset

module _ (r : Redis) (w : Windows) (out : Outside) (settings : Settings) where
  -- A delivery that an exception left is logged, and its offset is not committed.
  unfoldable pub dispatch : ℕ → Bool → Transformed → World r w → Option (World r w × Offset)
  dispatch fuel commits data' s =
      elim (deliver r w out settings data'.event_id (route_args data') data'.body fuel 0 0 s) [
        | none ↦ none
        | some ended ↦ some (ended.0, if not ended.1 && commits then committed else uncommitted)
      ]

  unfoldable pub handle : ℕ → Bool → Transformed → World r w → Option (World r w × Offset)
  handle fuel commits data' s =
      if is_well_formed data' then dispatch fuel commits data' s else some (s, skipped)
