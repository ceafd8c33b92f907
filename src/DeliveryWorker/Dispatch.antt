-- ===== src/DeliveryWorker/Dispatch.antt =====
-- What the worker does with a message, from the theorems on a delivery.
use webhook_relay_service.Delivery.Safety.{no_producer_no_letters}
use webhook_relay_service.TransformWorker.{Transformed}
use webhook_relay_service.Redis.{Redis, Windows}
use webhook_relay_service.Prelude.{
  Bool, arith, false, some, true, ℕ, ◌*◌, ◌+◌, ◌<◌, ◌≡◌, ◌≢◌, ◌&&◌, if◌then◌else◌, refl, not,
}
use webhook_relay_service.Model.Settings.{Settings}
use webhook_relay_service.DeliveryWorker.{
  Offset, dispatch, handle, is_well_formed, route_args, skipped, committed, uncommitted,
}
use webhook_relay_service.Delivery.Run.{Delivered, deliver-Delivered}
use webhook_relay_service.Delivery.{Outside, World}

not_skipped : (b : Bool) → (if b then committed else uncommitted) ≢ skipped
not_skipped true h = cc
not_skipped false h = cc

module _ (r : Redis) (w : Windows) (out : Outside) (settings : Settings) where
  -- A message with a URL is delivered to its end, given enough fuel for its number of retries. Since the worker has no Kafka producer, no dead letter is published.
  pub handle-Delivered :
      (fuel : ℕ) (commits : Bool) (data' : Transformed) (s : World r w)
      → is_well_formed data' ≡ true
      → s.producer ≡ false
      → data'.max_retries * 6 + 5 < fuel
      → (n : World r w × Offset) × (handle r w out settings fuel commits data' s ≡ some n)
        × (n.1 ≢ skipped)
        × (raised : Bool) × Delivered r w out settings data'.event_id
            (route_args data')
            data'.body
            0
            raised
            s
            n.0
        × (n.0.dead_letters ≡ s.dead_letters)
  unfolding handle dispatch route_args
  handle-Delivered fuel commits data' s formed off enough =
      let (ended, ran, delivered) =
        deliver-Delivered r w out settings data'.event_id (route_args data') data'.body fuel 0 0 s
          (omega (arith, enough)) in
      (
        (ended.0, if not ended.1 && commits then committed else uncommitted),
        rw (formed, handle) (rw (ran, dispatch) refl),
        not_skipped (not ended.1 && commits),
        ended.1,
        delivered,
        no_producer_no_letters r w out settings data'.event_id (route_args data') data'.body fuel 0
            0 s ended ran off,
      )
