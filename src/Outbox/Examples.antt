-- ===== src/Outbox/Examples.antt =====
-- One pending row that is published.
use webhook_relay_service.Samples.{db}
use webhook_relay_service.Prelude.{[], arith, codes, false, none, true, ◌∷◌}
use webhook_relay_service.Outbox.Guarantees.{IsSoundRelay, poll-IsSound}
use webhook_relay_service.Outbox.{PollWorld, Relay, poll}
use webhook_relay_service.Model.Rows.{OutboxRecord, OutboxStatus}

abbrev row : OutboxRecord
row = record {
  id = 12;
  event_id = 9;
  status = OutboxStatus.pending;
  publish_key = 4;
  publish_topic = codes "raw-events";
  attempts = 9;
  last_error = none;
  created_at = 0;
}

abbrev relay_state : Relay
relay_state = record { db = record db { outbox = row ∷ [] }; messages = [] }

abbrev poll_world : PollWorld
poll_world = record {
  locked = λ id. false;
  stopped = λ n. false;
  publish_error = λ n. none;
  commits = true;
}

poll-IsSound_example : IsSoundRelay (poll poll_world relay_state)
poll-IsSound_example =
    poll-IsSound poll_world relay_state (((λ p. omega arith, λ p. cc), λ p. cc), tt)
