-- ===== src/TransformWorker.antt =====
-- workers/transform_worker.py: from a raw event to one message for each route that wants it.
pub mod AtLeastOnce
pub mod Loop
mod Examples
pub mod Published
use webhook_relay_service.Model.Settings.{Settings}
use webhook_relay_service.UrlSecurity.{Headers}
use webhook_relay_service.Transform.Filter.{header_fields, route_matches_event}
use webhook_relay_service.Transform.Engine.{apply_pipeline}
use webhook_relay_service.Transform.{Piped, Tools, piped, raises}
use webhook_relay_service.Prelude.{
  Bool, List, Option, Text, [], if◌then◌else◌, keep, none, some, ℕ, ◌&&◌, ◌==◌, ◌∷◌,
}
use webhook_relay_service.Model.Rows.{Event, Route}
use webhook_relay_service.Model.Json.{Fields, Value, end}
use webhook_relay_service.Model.Db.{Db, event_by_id}

-- A message, with the topic that it is published to.
pub record Transformed : Type 0 where
  pub topic : Text
  pub event_id : ℕ
  pub route_id : ℕ
  pub url : Text
  pub method : Text
  pub headers : Headers
  pub body : Value
  pub timeout_ms : ℕ
  pub max_retries : ℕ
  pub retry_backoff_ms : ℕ

-- `route.headers or {}`.
abbrev pub headers_or_empty : Option Headers → Headers
headers_or_empty none = []
headers_or_empty (some headers) = headers

-- `Route.endpoint_id == endpoint_id` and `Route.is_active`.
unfoldable pub is_active_route : ℕ → Route → Bool
is_active_route endpoint_id route_row = route_row.endpoint_id == endpoint_id && route_row.is_active

module _ (tools : Tools) (settings : Settings) where
  -- The body for a route, after its pipeline if it has one.
  abbrev pub piped_body : Option (List Fields) → Value → Piped Value
  piped_body none body = piped body
  piped_body (some []) body = piped body
  piped_body (some (step ∷ rest)) body = apply_pipeline tools (step ∷ rest) body

  unfoldable pub message_for : Event → Route → Value → Transformed
  message_for event route_row body = record {
    topic = settings.kafka_topic_transformed_events;
    event_id = event.id;
    route_id = route_row.id;
    url = route_row.url;
    method = route_row.method;
    headers = headers_or_empty route_row.headers;
    body = body;
    timeout_ms = route_row.timeout_ms;
    max_retries = route_row.max_retries;
    retry_backoff_ms = route_row.retry_backoff_ms;
  }

  unfoldable pub wants : Event → Route → Bool
  wants event route_row =
      route_matches_event tools route_row.filter_expression event.request_body
        (header_fields end (headers_or_empty event.request_headers))

  -- The message of `_dispatch_route`, if the filter matches and the pipeline does not fail.
  unfoldable pub dispatch_route : Event → Route → Option Transformed
  dispatch_route event route_row =
      if wants event route_row
      then elim (piped_body route_row.transform_pipeline event.request_body) [
        | piped body ↦ some (message_for event route_row body)
        | raises e ↦ none
      ]
      else none

  module _ (sends : Transformed → Bool) where
    -- The routes in turn: a publish that fails raises, which ends the loop.
    unfoldable pub dispatch_routes : Event → List Route → List Transformed
    dispatch_routes event [] = []
    dispatch_routes event (route_row ∷ rest) =
        let later = dispatch_routes event rest in
        elim (dispatch_route event route_row) [
          | none ↦ later
          | some message ↦ if sends message then message ∷ later else []
        ]

    -- What `_process_event` publishes.
    unfoldable pub process_event : Db → ℕ → ℕ → List Transformed
    process_event db event_id endpoint_id = elim (event_by_id event_id db) [
      | none ↦ []
      | some event ↦ dispatch_routes event (keep (is_active_route endpoint_id) db.routes)
    ]
