-- ===== src/Events/Replay.antt =====
-- app/api/events.py: the handler that publishes an event once more.
use webhook_relay_service.Model.Settings.{Settings}
use webhook_relay_service.Workspaces.{Commit}
use webhook_relay_service.Rbac.{Tokens}
use webhook_relay_service.Prelude.{Bool, List, Text, [], false, true, ℕ, ◌++◌, ◌∷◌}
use webhook_relay_service.Model.Rows.{Event, WorkspaceMembership}
use webhook_relay_service.Model.Db.{Db}
use webhook_relay_service.Http.{http_error}
use webhook_relay_service.Events.{own_event, parse_event_id, ok}
use webhook_relay_service.Http.Action.{◌>>=◌, lift, Action}

-- What it publishes, under the id of the endpoint as the key.
pub record ReplayMessage : Type 0 where
  pub topic : Text
  pub event_id : ℕ
  pub endpoint_id : ℕ
  pub is_replay : Bool

-- `get_kafka()`: no producer, or one whose publish goes through or raises.
pub data Producer : Type 0 where
  unavailable : Producer
  available : Bool → Producer

pub record Replayer : Type 0 where
  pub db : Db
  pub messages : List ReplayMessage

pub record Replaying : Type 0 where
  pub event_id : ℕ

module _ (tokens : Tokens) (at : Commit) where
  -- An action on the database, within the larger state.
  abbrev pub on_db : {A : Type 0} → Action Db A → Action Replayer A
  on_db m s = let (answer, db) = m s.db in (answer, record s { db = db })

  abbrev pub message_for_replay : Settings → Event → ReplayMessage
  message_for_replay settings event = record {
    topic = settings.kafka_topic_raw_events;
    event_id = event.id;
    endpoint_id = event.endpoint_id;
    is_replay = true;
  }

  abbrev pub publish_replay : Settings → Producer → Event → Action Replayer Replaying
  publish_replay settings unavailable event s = (http_error 503 "Kafka is unavailable", s)
  publish_replay settings (available false) event s =
      (http_error 503 "Failed to publish replay message", s)
  publish_replay settings (available true) event s = (
    ok (record { event_id = event.id }),
    record s { messages = s.messages ++ message_for_replay settings event ∷ [] },
  )

  unfoldable pub replay_event_as :
      Settings → WorkspaceMembership → Producer → Text → Action Replayer Replaying
  replay_event_as settings membership producer event_id = do
    ev_id ← lift (parse_event_id tokens at event_id)
    event ← on_db (own_event tokens at membership ev_id)
    publish_replay settings producer event
