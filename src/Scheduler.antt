-- ===== src/Scheduler.antt =====
-- workers/retry_scheduler.py: the worker that puts failed events back on the raw topic when their
-- time has come. A round is one pass of the `while` loop; an exception in it ends only the round.
use webhook_relay_service.Prelude.{
  Bool, List, Option, Text, [], false, if◌then◌else◌, keep, leb, none, not, some, take, true, ℕ,
  ◌&&◌, ◌*◌, ◌++◌, ◌+◌, ◌==◌, ◌∷◌,
}
use webhook_relay_service.Outbox.{Relay}
use webhook_relay_service.Model.Settings.{Settings}
use webhook_relay_service.Model.Rows.{Event, EventStatus, failed, pending, queued}
use webhook_relay_service.Model.Db.{Db}

-- What the environment of a round decides: whether there is a Kafka producer, the rows that are
-- locked, whether the publish of the n-th event goes through, the time of a failure, and whether
-- the commit goes through.
pub record RoundWorld : Type 0 where
  pub producer : Bool
  pub now : ℕ
  pub locked : ℕ → Bool
  pub published : ℕ → Bool
  pub failure_time : ℕ → ℕ
  pub commits : Bool

abbrev pub retry_delay_s : ℕ
retry_delay_s = 30

-- `Event.retry_at.is_not(None)` and `Event.retry_at <= now`.
abbrev pub is_due : ℕ → Option ℕ → Bool
is_due now none = false
is_due now (some t) = leb t now

abbrev pub is_failed : EventStatus → Bool
is_failed pending = false
is_failed queued = false
is_failed failed = true

unfoldable pub wants_retry : RoundWorld → Event → Bool
wants_retry world e =
    is_failed e.status
    && is_due world.now e.retry_at
    && not e.is_discarded
    && not (world.locked e.id)

unfoldable pub select_retries : RoundWorld → Db → List Event
select_retries world db = take 50 (keep (wants_retry world) db.events)

abbrev pub write_event : Event → List Event → List Event
write_event x [] = []
write_event x (y ∷ ys) = let rest = write_event x ys in if y.id == x.id then x ∷ ys else y ∷ rest

-- One event: queued again, or put off.
unfoldable pub retry_event : Text → RoundWorld → ℕ → Event → Relay → Relay
retry_event topic world n e s =
    if world.published n
    then record {
      db = record s.db {
        events = write_event (record e { status = queued; retry_at = none }) s.db.events;
      };
      messages =
          s.messages ++ record { topic = topic; event_id = e.id; endpoint_id = e.endpoint_id } ∷ [];
    }
    else record s {
      db = record s.db {
        events =
            write_event (record e { retry_at = some (world.failure_time n + retry_delay_s * 1000) })
              s.db.events;
      };
    }

unfoldable pub retry_events : Text → RoundWorld → ℕ → List Event → Relay → Relay
retry_events topic world n [] s = s
retry_events topic world n (e ∷ es) s =
    retry_events topic world (n + 1) es (retry_event topic world n e s)

unfoldable pub round : Settings → RoundWorld → Relay → Relay
round settings world s =
    if world.producer
    then (let s' =
          retry_events settings.kafka_topic_raw_events world 0 (select_retries world s.db) s in
        if world.commits then s' else record s { messages = s'.messages })
    else s
