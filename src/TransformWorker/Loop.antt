-- ===== src/TransformWorker/Loop.antt =====
-- workers/transform_worker.py: the consumer loop, on one partition. `consumer.commit()` commits the
-- position of the consumer, and a consumer that starts goes on at the position that was committed
-- last.
use webhook_relay_service.Model.Settings.{Settings}
use webhook_relay_service.UrlSecurity.{text_of}
use webhook_relay_service.TransformWorker.{Transformed, process_event}
use webhook_relay_service.Transform.{Tools}
use webhook_relay_service.Prelude.{
  Bool, List, Option, Text, [], false, if◌then◌else◌, none, nth, some, true, ℕ, ◌&&◌, ◌++◌, ◌+◌,
  ◌≡◌,
}
use webhook_relay_service.Model.Db.{Db}
use webhook_relay_service.Http.{filled}

-- A message of the topic of raw events; a field may be missing.
pub record RawMessage : Type 0 where
  pub event_id : Option Text
  pub endpoint_id : Option Text

pub record Worker : Type 0 where
  pub position : ℕ
  pub committed_to : ℕ
  pub stopped : Bool
  pub published : List Transformed

-- The process ends, and another one starts.
unfoldable pub restarted : Worker → Worker
restarted c = record c { position = c.committed_to; stopped = false }

-- What a round of the loop meets: the database, the stop flag, whether each publish goes through,
-- and whether the commit does.
pub record Surroundings : Type 0 where
  pub db : Db
  pub stop : Bool
  pub sends : Transformed → Bool
  pub commits : Bool

module _ (tools : Tools) (settings : Settings) (parse_uuid : Text → Option ℕ) where
  -- `_handle_message`: every exception is caught, and so is that of `uuid.UUID`.
  unfoldable pub handle_message : Db → (Transformed → Bool) → RawMessage → List Transformed
  handle_message db sends message' =
      if filled message'.event_id && filled message'.endpoint_id
      then elim (parse_uuid (text_of message'.event_id)) [
        | none ↦ []
        | some event_id ↦ elim (parse_uuid (text_of message'.endpoint_id)) [
          | none ↦ []
          | some endpoint_id ↦ process_event tools settings sends db event_id endpoint_id
        ]
      ]
      else []

  -- One round of `async for`: the message is fetched before the stop flag is tested, and the commit
  -- follows whatever `_handle_message` met.
  unfoldable pub receive : Surroundings → RawMessage → Worker → Worker
  receive around message' c =
      let fetched = record c { position = c.position + 1 } in
      if around.stop
      then record fetched { stopped = true }
      else (let handled = record fetched {
        published = c.published ++ handle_message around.db around.sends message';
      } in
          if around.commits then record handled { committed_to = fetched.position } else handled)

  -- A round, in surroundings of some kind, or a restart.
  pub data Step (meets : Surroundings → Type 0) (topic : List RawMessage) (c d : Worker)
      : Type 0 where
    receives :
        (around : Surroundings) (message' : RawMessage)
        → meets around
        → c.stopped ≡ false
        → nth c.position topic ≡ some message'
        → d ≡ receive around message' c
        → Step meets topic c d
    restarts : d ≡ restarted c → Step meets topic c d

  pub data Reach (meets : Surroundings → Type 0) (topic : List RawMessage) (c : Worker)
      : Worker → Type 0 where
    here : Reach meets topic c c
    next : {d e : Worker} → Reach meets topic c d → Step meets topic d e → Reach meets topic c e
