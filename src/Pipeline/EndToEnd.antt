-- ===== src/Pipeline/EndToEnd.antt =====
-- From an accepted webhook to the destination of a route.
use webhook_relay_service.Gateway.Storage.{receive-Handled, stored_event}
use webhook_relay_service.DeliveryWorker.Dispatch.{handle-Delivered}
use mathlib.Core.Path.{subst}
use webhook_relay_service.Redis.{Redis, Windows}
use webhook_relay_service.Pipeline.Onward.{is_about, accepted-IsOnward, Handled-accepted}
use webhook_relay_service.Pipeline.{System, gate_of, relay_of, with_gate}
use webhook_relay_service.Outbox.Published.{IsUndisturbed, is_selectable}
use webhook_relay_service.Outbox.{
  PollWorld, Relay, batch_size, poll, relay_batch, relay_record, select_batch,
}
use webhook_relay_service.Model.Settings.{Settings}
use webhook_relay_service.Model.Json.{Value}
use webhook_relay_service.Model.Db.{Db, endpoint_by_id, event_by_id}
use webhook_relay_service.Gateway.Admission.{IsAdmitted}
use webhook_relay_service.Delivery.Run.{Delivered}
use webhook_relay_service.Delivery.{Outside, World}
use webhook_relay_service.Http.{ok, filled}
use webhook_relay_service.Gateway.{accepted, Codecs, WebhookRequest, receive_webhook, Moment}
use webhook_relay_service.DeliveryWorker.{skipped, handle, Offset, route_args, is_well_formed}
use webhook_relay_service.TransformWorker.{
  Transformed, dispatch_route, dispatch_routes, message_for, wants, process_event, is_active_route,
}
use webhook_relay_service.Transform.Filter.{route_matches_event}
use webhook_relay_service.Transform.{Tools}
use webhook_relay_service.Prelude.{
  Bool, List, Option-cases, [], ap, inl, inr, none, refl, some, true, ◌++◌, ◌∷◌, ◌≡◌, ◌∙◌, keep,
  arith, ◌+◌, ◌*◌, ◌<◌, ◌≢◌, ◌==◌, if◌then◌else◌, Option, length, sym, find-holds, any, Text, false,
  Bool-cases, ℕ, keep-row,
}
use webhook_relay_service.Model.Rows.{Event, Route, OutboxRecord, Endpoint}

module _ (tools : Tools) (settings : Settings) (sends : Transformed → Bool)
    (all_sent : (m : Transformed) → sends m ≡ true) (event : Event) where
  dispatch_routes-append :
      (xs ys : List Route)
      → dispatch_routes tools settings sends event (xs ++ ys)
        ≡ dispatch_routes tools settings sends event xs
          ++ dispatch_routes tools settings sends event ys
  unfolding dispatch_routes
  dispatch_routes-append [] ys = refl
  dispatch_routes-append (row ∷ xs) ys =
      elim (Option-cases (dispatch_route tools settings event row)) [
        | inl unwanted ↦ rw (unwanted, dispatch_routes) (dispatch_routes-append xs ys)
        | inr (m, made) ↦
            rw (made, dispatch_routes)
              (rw (all_sent m) (ap (λ ms. m ∷ ms) (dispatch_routes-append xs ys)))
      ]

  -- A route without a filter and without a pipeline takes every event as it is.
  plain-dispatch_route :
      (row : Route)
      → row.filter_expression ≡ none
      → row.transform_pipeline ≡ none
      → dispatch_route tools settings event row
        ≡ some (message_for tools settings event row event.request_body)
  unfolding dispatch_route wants route_matches_event
  plain-dispatch_route row no_filter no_pipeline = simp (no_filter, no_pipeline) refl

  -- The message of a row among the others.
  dispatched_row :
      (xs ys : List Route) (row : Route) (m : Transformed)
      → dispatch_route tools settings event row ≡ some m
      → dispatch_routes tools settings sends event (xs ++ row ∷ ys)
        ≡ dispatch_routes tools settings sends event xs
          ++ m ∷ dispatch_routes tools settings sends event ys
  unfolding dispatch_routes
  dispatched_row xs ys row m made =
      dispatch_routes-append xs (row ∷ ys)
      ∙ ap (λ ms. dispatch_routes tools settings sends event xs ++ ms)
          (rw (made, dispatch_routes) (rw (all_sent m) refl))

relay_record-routes :
    (e : Option Text) (x : OutboxRecord) (s : Relay) → (relay_record e x s).db.routes ≡ s.db.routes
unfolding relay_record
relay_record-routes none x s = refl
relay_record-routes (some e) x s = refl

either_routes :
    (commits : Bool) (s s' : Relay)
    → s'.db.routes ≡ s.db.routes
    → (if commits then s' else record s { messages = s'.messages }).db.routes ≡ s.db.routes
either_routes true s s' h = h
either_routes false s s' h = refl

-- A poll leaves the routes alone.
relay_batch-routes :
    (world : PollWorld) (n : ℕ) (xs : List OutboxRecord) (s : Relay)
    → (relay_batch world n xs s).db.routes ≡ s.db.routes
unfolding relay_batch
relay_batch-routes world n [] s = refl
relay_batch-routes world n (x ∷ xs) s = elim (Bool-cases (world.stopped n)) [
  | inl stop ↦ rw stop refl
  | inr go ↦ rw go (
      relay_batch-routes world (n + 1) xs (relay_record (world.publish_error n) x s)
      ∙ relay_record-routes (world.publish_error n) x s)
]

poll-routes : (world : PollWorld) (s : Relay) → (poll world s).db.routes ≡ s.db.routes
unfolding poll
poll-routes world s =
    either_routes world.commits s (relay_batch world 0 (select_batch world s.db) s)
      (relay_batch-routes world 0 (select_batch world s.db) s)

module _ (r : Redis) (w : Windows) (codecs : Codecs) (settings : Settings) (at : Moment)
    (tools : Tools) (out : Outside) where
  -- The payload of the webhook, in a message that the relay and the transform worker pass on, and
  -- whose delivery ends.
  pub record IsDelivered (q : WebhookRequest) (row : Route) (before : Db) (windows : w.State)
      (after : Relay) (sends : Transformed → Bool) (fuel : ℕ) (commits : Bool) (s : World r w)
      : Type 0 where
    pub endpoint : Endpoint
    pub payload : Value
    pub admitted : IsAdmitted r w codecs settings at q before windows endpoint payload
    pub published :
        any (is_about r w codecs settings at tools at.event_id endpoint.id) after.messages ≡ true
    pub earlier : List Transformed
    pub later : List Transformed
    pub message : Transformed
    pub dispatched :
        process_event tools settings sends after.db at.event_id endpoint.id
        ≡ earlier ++ message ∷ later
    pub carries : (message.body ≡ payload) × (message.url ≡ row.url)
    pub on_topic : message.topic ≡ settings.kafka_topic_transformed_events
    pub end_state : World r w × Offset
    pub handled : handle r w out settings fuel commits message s ≡ some end_state
    pub not_skipped : end_state.1 ≢ skipped
    pub raised : Bool
    pub delivered :
        Delivered r w out settings at.event_id (route_args message) payload 0 raised s end_state.0

  found_endpoint :
      (q : WebhookRequest) (db : Db) (windows : w.State) (endpoint : Endpoint) (payload : Value)
      (ep_id : ℕ)
      → IsAdmitted r w codecs settings at q db windows endpoint payload
      → codecs.parse_uuid q.endpoint_id ≡ some ep_id
      → endpoint.id ≡ ep_id
  unfolding endpoint_by_id
  found_endpoint q db windows endpoint payload ep_id a parsed =
      let ids : some a.id ≡ some ep_id = sym a.parsed ∙ parsed in
      let same : a.id ≡ ep_id = cc in
      let hit = find-holds (λ (e : Endpoint). e.id == a.id) db.endpoints endpoint a.found in
      ground (arith, hit, same)

  -- A webhook for an endpoint is accepted, with a new id for its event and fewer than ten pending
  -- rows before it, and nothing disturbs the next poll. Then for each active route of the endpoint
  -- that has a URL and neither a filter nor a pipeline: the relay publishes the event to the topic of raw
  -- events, the transform worker, if its publishes go through, passes the payload on for the URL of
  -- the route, on the topic of transformed events, and the delivery of that message, from any state of
  -- the world without a Kafka producer and with enough fuel for the retries of the route, comes to its
  -- end, with at least one attempt logged if neither Redis nor the database raises.
  pub accepted-IsDelivered :
      (q : WebhookRequest) (id ep_id : ℕ) (s : System r w codecs settings) (world : PollWorld)
      (xs ys : List Route) (row : Route) (sends : Transformed → Bool) (fuel : ℕ) (commits : Bool)
      (s' : World r w)
      → (receive_webhook r w codecs settings at q (gate_of r w codecs settings s)).0
        ≡ ok (accepted id)
      → codecs.parse_uuid q.endpoint_id ≡ some ep_id
      → event_by_id at.event_id s.db ≡ none
      → IsUndisturbed world
      → length (keep (is_selectable world) s.db.outbox) < batch_size
      → s.db.routes ≡ xs ++ row ∷ ys
      → is_active_route ep_id row ≡ true
      → filled (some row.url) ≡ true
      → row.filter_expression ≡ none
      → row.transform_pipeline ≡ none
      → ((m : Transformed) → sends m ≡ true)
      → s'.producer ≡ false
      → row.max_retries * 6 + 5 < fuel
      → IsDelivered q row s.db
          (gate_of r w codecs settings s).windows
          (poll world (
            relay_of r w codecs settings (
              with_gate r w codecs settings s
                (receive_webhook r w codecs settings at q (gate_of r w codecs settings s)).1)))
          sends
          fuel
          commits
          s'
  unfolding is_well_formed message_for
  accepted-IsDelivered q id ep_id s world xs ys row sends fuel commits s' taken parsed fresh
        undisturbed few rows active has_url no_filter no_pipeline all_sent off enough =
      let after = receive_webhook r w codecs settings at q (gate_of r w codecs settings s) in
      let relay = relay_of r w codecs settings (with_gate r w codecs settings s after.1) in
      let onward =
        accepted-IsOnward r w codecs settings at tools q id s world taken fresh undisturbed few in
      let (_, _, _, stored) =
        Handled-accepted r w codecs settings at tools q id s.db
          (gate_of r w codecs settings s).windows after
          (receive-Handled r w codecs settings at q (gate_of r w codecs settings s)) taken in
      let routes = poll-routes world relay ∙ ap (λ (d : Db). d.routes) stored ∙ rows in
      let event = stored_event r w codecs settings at onward.endpoint q onward.payload in
      let is_its : Route → Bool = is_active_route onward.endpoint.id in
      let own_row : is_its row ≡ true =
        subst (λ n. is_active_route n row ≡ true)
          (sym (
            found_endpoint q s.db (gate_of r w codecs settings s).windows onward.endpoint
              onward.payload ep_id onward.admitted parsed))
          active in
      let kept_rows = ap (keep is_its) routes ∙ keep-row is_its xs ys row own_row in
      let message = message_for tools settings event row onward.payload in
      let (end_state, handled, not_skipped, raised, delivered, _) =
        handle-Delivered r w out settings fuel commits message s' has_url off enough in
      record {
        endpoint = onward.endpoint;
        payload = onward.payload;
        admitted = onward.admitted;
        published = onward.published;
        earlier = dispatch_routes tools settings sends event (keep is_its xs);
        later = dispatch_routes tools settings sends event (keep is_its ys);
        message = message;
        dispatched =
            onward.dispatched sends
            ∙ ap (dispatch_routes tools settings sends event) kept_rows
            ∙ dispatched_row tools settings sends all_sent event (keep is_its xs) (keep is_its ys)
                row message
                (plain-dispatch_route tools settings sends all_sent event row no_filter
                  no_pipeline);
        carries = (refl, refl);
        on_topic = refl;
        end_state = end_state;
        handled = handled;
        not_skipped = not_skipped;
        raised = raised;
        delivered = delivered;
      }
