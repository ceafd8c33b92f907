-- ===== src/TransformWorker/Published.antt =====
-- What is published for an event, route by route.
use mathlib.Core.Path.{subst}
use webhook_relay_service.Delivery.Schedule.{Gives, no_pipeline, no_steps, steps}
use webhook_relay_service.Model.Json.{Fields, Value, end}
use webhook_relay_service.Transform.Filter.{route_matches_event, header_fields}
use webhook_relay_service.Model.Settings.{Settings}
use webhook_relay_service.TransformWorker.{
  Transformed, dispatch_route, dispatch_routes, is_active_route, process_event, headers_or_empty,
  piped_body, message_for, wants,
}
use webhook_relay_service.Transform.{Tools, PipelineError, Piped, piped, raises}
use webhook_relay_service.Prelude.{
  Bool, Bool-cases, List, [], false, inl, inr, keep, none, some, true, ℕ, ◌∷◌, ◌≡◌, Option, refl,
  ◌&&◌, ◌==◌,
}
use webhook_relay_service.Model.Rows.{Event, Route}
use webhook_relay_service.Model.Db.{Db, event_by_id}

module _ (tools : Tools) (settings : Settings) (event : Event) where
  -- Whether the filter of a route, if it has one, lets the event pass.
  abbrev pub passes_filter : Route → Bool
  passes_filter row =
      route_matches_event tools row.filter_expression event.request_body
        (header_fields end (headers_or_empty event.request_headers))

  -- The message for a route, with the body that its pipeline made.
  abbrev pub message_to : Route → Value → Transformed
  message_to row body = record {
    topic = settings.kafka_topic_transformed_events;
    event_id = event.id;
    route_id = row.id;
    url = row.url;
    method = row.method;
    headers = headers_or_empty row.headers;
    body = body;
    timeout_ms = row.timeout_ms;
    max_retries = row.max_retries;
    retry_backoff_ms = row.retry_backoff_ms;
  }

  -- The messages for some routes, in their order: one for each whose filter lets the event pass and
  -- whose pipeline ends, with the body that it gives.
  pub data AreMessagesOf : List Route → List Transformed → Type 0 where
    no_routes : AreMessagesOf [] []
    filtered :
        {row : Route} {rows : List Route} {messages : List Transformed}
        → passes_filter row ≡ false
        → AreMessagesOf rows messages
        → AreMessagesOf (row ∷ rows) messages
    broken :
        {row : Route} {rows : List Route} {messages : List Transformed} {e : PipelineError}
        → passes_filter row ≡ true
        → Gives tools event row.transform_pipeline (raises e)
        → AreMessagesOf rows messages
        → AreMessagesOf (row ∷ rows) messages
    transformed :
        {row : Route} {rows : List Route} {messages : List Transformed} {body : Value}
        → passes_filter row ≡ true
        → Gives tools event row.transform_pipeline (piped body)
        → AreMessagesOf rows messages
        → AreMessagesOf (row ∷ rows) (message_to row body ∷ messages)

  piped_body-Gives :
      (pipeline : Option (List Fields))
      → Gives tools event pipeline (piped_body tools settings pipeline event.request_body)
  piped_body-Gives none = no_pipeline
  piped_body-Gives (some []) = no_steps
  piped_body-Gives (some (step ∷ rest)) = steps

  dispatch_filtered :
      (row : Route) → passes_filter row ≡ false → dispatch_route tools settings event row ≡ none
  unfolding dispatch_route wants
  dispatch_filtered row stops = rw stops refl

  dispatch_passed :
      (row : Route) (body : Piped Value)
      → piped_body tools settings row.transform_pipeline event.request_body ≡ body
      → passes_filter row ≡ true
      → dispatch_route tools settings event row
        ≡ elim body [ piped b ↦ some (message_to row b) | raises e ↦ none ]
  unfolding dispatch_route wants message_for
  dispatch_passed row (piped b) same passes = rw passes (rw same refl)
  dispatch_passed row (raises e) same passes = rw passes (rw same refl)

-- A list is the beginning of another, up to the first item that a test refuses.
pub data IsCutAt (p : Transformed → Bool) : List Transformed → List Transformed → Type 0 where
  whole : IsCutAt p [] []
  kept :
      {m : Transformed} {xs ys : List Transformed}
      → p m ≡ true
      → IsCutAt p xs ys
      → IsCutAt p (m ∷ xs) (m ∷ ys)
  cut : {m : Transformed} {ys : List Transformed} → p m ≡ false → IsCutAt p [] (m ∷ ys)

-- Some messages of routes, and what was published of them.
pub record IsPublished (tools : Tools) (settings : Settings) (sends : Transformed → Bool)
    (event : Event) (rows : List Route) (published : List Transformed) : Type 0 where
  pub messages : List Transformed
  pub of_routes : AreMessagesOf tools settings event rows messages
  pub is_cut : IsCutAt sends published messages

module _ (tools : Tools) (settings : Settings) (sends : Transformed → Bool) (event : Event) where
  row-IsPublished :
      (row : Route) (rest : List Route) (body : Piped Value)
      → piped_body tools settings row.transform_pipeline event.request_body ≡ body
      → passes_filter tools settings event row ≡ true
      → IsPublished tools settings sends event rest
          (dispatch_routes tools settings sends event rest)
      → IsPublished tools settings sends event
          (row ∷ rest)
          (dispatch_routes tools settings sends event (row ∷ rest))
  unfolding dispatch_routes
  row-IsPublished row rest (raises e) same passes h =
      rw (dispatch_passed tools settings event row (raises e) same passes, dispatch_routes)
        (record {
          messages = h.messages;
          of_routes =
              broken passes
                (subst (Gives tools event row.transform_pipeline) same
                  (piped_body-Gives tools settings event row.transform_pipeline))
                h.of_routes;
          is_cut = h.is_cut;
        })
  row-IsPublished row rest (piped body) same passes h =
      let m = message_to tools settings event row body in
      let gives =
        subst (Gives tools event row.transform_pipeline) same
          (piped_body-Gives tools settings event row.transform_pipeline) in
      elim (Bool-cases (sends m)) [
        | inl goes ↦
            rw
              (
                dispatch_passed tools settings event row (piped body) same passes,
                dispatch_routes,
                goes,
              )
              (record {
                messages = m ∷ h.messages;
                of_routes = transformed passes gives h.of_routes;
                is_cut = kept goes h.is_cut;
              })
        | inr fails ↦
            rw
              (
                dispatch_passed tools settings event row (piped body) same passes,
                dispatch_routes,
                fails,
              )
              (record {
                messages = m ∷ h.messages;
                of_routes = transformed passes gives h.of_routes;
                is_cut = cut fails;
              })
      ]

  pub routes-IsPublished :
      (rows : List Route)
      → IsPublished tools settings sends event rows
          (dispatch_routes tools settings sends event rows)
  unfolding dispatch_routes
  routes-IsPublished [] = record { messages = []; of_routes = no_routes; is_cut = whole }
  routes-IsPublished (row ∷ rest) =
      let h = routes-IsPublished rest in
      elim (Bool-cases (passes_filter tools settings event row)) [
        | inr stops ↦
            rw (dispatch_filtered tools settings event row stops, dispatch_routes)
              (record {
                messages = h.messages;
                of_routes = filtered stops h.of_routes;
                is_cut = h.is_cut;
              })
        | inl passes ↦ row-IsPublished row rest _ refl passes h
      ]

-- The routes of an endpoint that are active.
abbrev pub active_routes : ℕ → Db → List Route
active_routes endpoint_id db =
    keep (λ (x : Route). x.endpoint_id == endpoint_id && x.is_active) db.routes

pub process_event-IsPublished :
    (tools : Tools) (settings : Settings) (sends : Transformed → Bool) (db : Db)
    (event_id endpoint_id : ℕ) (event : Event)
    → event_by_id event_id db ≡ some event
    → IsPublished tools settings sends event
        (active_routes endpoint_id db)
        (process_event tools settings sends db event_id endpoint_id)
unfolding process_event is_active_route
process_event-IsPublished tools settings sends db event_id endpoint_id event found =
    rw (found, process_event)
      (routes-IsPublished tools settings sends event (active_routes endpoint_id db))
