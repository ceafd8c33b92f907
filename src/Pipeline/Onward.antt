-- ===== src/Pipeline/Onward.antt =====
-- From an accepted webhook to the transform worker.
use webhook_relay_service.TransformWorker.Published.{IsPublished, active_routes, routes-IsPublished}
use mathlib.Core.Path.{subst}
use webhook_relay_service.Http.{ok, raised, Result}
use webhook_relay_service.Gateway.{accepted, duplicate, Reply, Gate}
use webhook_relay_service.Pipeline.{System, gate_of, relay_of, with_gate}
use webhook_relay_service.Outbox.Published.{
  IsUndisturbed, is_selectable, poll-messages, any-select_batch,
}
use webhook_relay_service.TransformWorker.{
  Transformed, dispatch_route, is_active_route, message_for, process_event, wants, dispatch_routes,
}
use webhook_relay_service.Transform.{Tools}
use webhook_relay_service.Redis.{Redis, Windows}
use webhook_relay_service.Prelude.{
  Bool, List, [], any, keep, none, refl, true, ℕ, ◌&&◌, ◌==◌, ◌∷◌, ◌≡◌, ◌++◌, ◌<◌, if◌then◌else◌,
  ==_refl, ap, find-append, some, length, ◌≤◌, ◌||◌, ◌∙◌, any-append, arith, map, any-map,
  length-keep-snoc, false, sym, text_eq, text_eq_iff, Text,
}
use webhook_relay_service.Outbox.Kept.{IsStored, poll-IsStored}
use webhook_relay_service.Outbox.{
  Message, Relay, poll, batch_size, PollWorld, message_of, select_batch,
}
use webhook_relay_service.Model.Settings.{Settings}
use webhook_relay_service.Model.Rows.{Endpoint, Event, EventStatus, Route, OutboxRecord}
use webhook_relay_service.Model.Json.{Value}
use webhook_relay_service.Model.Db.{Db, event_by_id}
use webhook_relay_service.Gateway.Storage.{
  with_event, Handled, receive-Handled, stored_event, pending_row,
}
use webhook_relay_service.Gateway.Admission.{IsAdmitted}
use webhook_relay_service.Gateway.{Codecs, Moment, WebhookRequest, receive_webhook, accepted}

-- A status is nothing to the dispatch of an event.
status-dispatch_routes :
    (tools : Tools) (settings : Settings) (sends : Transformed → Bool) (event : Event)
    (status : EventStatus) (routes : List Route)
    → dispatch_routes tools settings sends (record event { status = status }) routes
      ≡ dispatch_routes tools settings sends event routes
unfolding dispatch_routes dispatch_route wants message_for
status-dispatch_routes tools settings sends event status [] = refl
status-dispatch_routes tools settings sends event status (row ∷ rows) =
    ap
      (λ (later : List Transformed).
        elim (dispatch_route tools settings event row) as (λ _. List Transformed) [
          | none ↦ later
          | some message ↦ if sends message then message ∷ later else []
        ])
      (status-dispatch_routes tools settings sends event status rows)

same_text : (t : Text) → text_eq t t ≡ true
same_text t = (text_eq_iff t t).1 refl

or_true : (a b : Bool) → b ≡ true → (a || b) ≡ true
or_true true b h = refl
or_true false b h = h

module _ (r : Redis) (w : Windows) (codecs : Codecs) (settings : Settings) (at : Moment)
    (tools : Tools) where
  -- A message of the topic of raw events, which the transform worker reads, that names the event and
  -- its endpoint.
  abbrev pub is_about : ℕ → ℕ → Message → Bool
  is_about event_id endpoint_id m =
      text_eq m.topic settings.kafka_topic_raw_events
      && (m.event_id == event_id && m.endpoint_id == endpoint_id)

  -- The event of an admitted webhook has its message, and the worker that takes the message, in the
  -- database of that moment, dispatches that event to the active routes of its endpoint.
  pub record IsOnward (q : WebhookRequest) (before : Db) (windows : w.State) (after : Relay)
      : Type 0 where
    pub endpoint : Endpoint
    pub payload : Value
    pub admitted : IsAdmitted r w codecs settings at q before windows endpoint payload
    pub published : any (is_about at.event_id endpoint.id) after.messages ≡ true
    pub dispatched :
        (sends : Transformed → Bool)
        → process_event tools settings sends after.db at.event_id endpoint.id
          ≡ dispatch_routes tools settings sends
              (stored_event r w codecs settings at endpoint q payload)
              (keep (is_active_route endpoint.id) after.db.routes)
    pub told :
        (sends : Transformed → Bool)
        → IsPublished tools settings sends
            (stored_event r w codecs settings at endpoint q payload)
            (active_routes endpoint.id after.db)
            (process_event tools settings sends after.db at.event_id endpoint.id)

  IsStored-new_row :
      (q : WebhookRequest) (endpoint : Endpoint) (payload : Value) (db : Db)
      → event_by_id at.event_id db ≡ none
      → IsStored at.event_id
          (stored_event r w codecs settings at endpoint q payload)
          (with_event r w codecs settings at endpoint q payload db).events
  unfolding event_by_id
  IsStored-new_row q endpoint payload db fresh = record {
    status = EventStatus.pending;
    found =
        find-append (λ (e : Event). e.id == at.event_id) db.events
          (stored_event r w codecs settings at endpoint q payload) fresh (==_refl at.event_id);
  }

  stored-dispatched :
      (q : WebhookRequest) (endpoint : Endpoint) (payload : Value) (db : Db)
      → IsStored at.event_id (stored_event r w codecs settings at endpoint q payload) db.events
      → (sends : Transformed → Bool)
      → process_event tools settings sends db at.event_id endpoint.id
        ≡ dispatch_routes tools settings sends
            (stored_event r w codecs settings at endpoint q payload)
            (keep (is_active_route endpoint.id) db.routes)
  unfolding process_event event_by_id
  stored-dispatched q endpoint payload db stored sends =
      rw (stored.found, process_event)
        (status-dispatch_routes tools settings sends
          (stored_event r w codecs settings at endpoint q payload) stored.status
          (keep (is_active_route endpoint.id) db.routes))

  message_published :
      (world : PollWorld) (endpoint : Endpoint) (s : Relay) (rows : List OutboxRecord)
      → IsUndisturbed world
      → s.db.outbox ≡ rows ++ pending_row r w codecs settings at endpoint ∷ []
      → length (keep (is_selectable world) rows) < batch_size
      → any (is_about at.event_id endpoint.id) (poll world s).messages ≡ true
  message_published world endpoint s rows undisturbed outbox few =
      let row = pending_row r w codecs settings at endpoint in
      let about : OutboxRecord → Bool = λ x. is_about at.event_id endpoint.id (message_of x) in
      let chosen : OutboxRecord → Bool = λ x. is_selectable world x && about x in
      let batch = select_batch world s.db in
      let all_fit : length (keep (is_selectable world) s.db.outbox) ≤ batch_size =
        rw outbox (omega (arith, length-keep-snoc (is_selectable world) rows row, few)) in
      let row_chosen : chosen row ≡ true =
        rw
          (
            undisturbed.free at.outbox_id,
            same_text settings.kafka_topic_raw_events,
            ==_refl at.event_id,
            ==_refl endpoint.id,
          )
          refl in
      let in_outbox : any chosen s.db.outbox ≡ true =
        rw outbox
          (any-append chosen rows (row ∷ []) ∙ or_true (any chosen rows) _ (rw row_chosen refl)) in
      ap (any (is_about at.event_id endpoint.id)) (poll-messages world undisturbed s)
      ∙ any-append (is_about at.event_id endpoint.id) s.messages (map message_of batch)
      ∙ or_true (any (is_about at.event_id endpoint.id) s.messages) _ (
          any-map message_of (is_about at.event_id endpoint.id) batch
          ∙ any-select_batch world s.db about all_fit
          ∙ in_outbox)

  pub Handled-accepted :
      (q : WebhookRequest) (id : ℕ) (db : Db) (windows : w.State)
      (handled : Result Reply × Gate r w codecs settings)
      → Handled r w codecs settings at q db windows handled
      → handled.0 ≡ ok (accepted id)
      → (endpoint : Endpoint) × (payload : Value) × IsAdmitted r w codecs settings at q db windows
          endpoint payload
        × (handled.1.db ≡ with_event r w codecs settings at endpoint q payload db)
  Handled-accepted q id db windows (raised e, s') h same = absurd cc
  Handled-accepted q id db windows (ok duplicate, s') h same = absurd cc
  Handled-accepted q id db windows (ok (accepted id'), s') (endpoint, payload, admitted, _, stored)
        same =
      (endpoint, payload, admitted, stored)

  -- A webhook that was accepted, with a new id for its event and fewer than ten pending rows before
  -- it: the next poll, if nothing disturbs it, publishes a message for the event to the topic of raw
  -- events, whether or not its commit goes through, and the transform worker that takes it publishes
  -- the messages for the active routes of the endpoint, in their order, that filter and pipeline make
  -- of the payload of the webhook, up to the first publish that fails.
  pub accepted-IsOnward :
      (q : WebhookRequest) (id : ℕ) (s : System r w codecs settings) (world : PollWorld)
      → (receive_webhook r w codecs settings at q (gate_of r w codecs settings s)).0
        ≡ ok (accepted id)
      → event_by_id at.event_id s.db ≡ none
      → IsUndisturbed world
      → length (keep (is_selectable world) s.db.outbox) < batch_size
      → IsOnward q s.db (gate_of r w codecs settings s).windows (
          poll world (
            relay_of r w codecs settings (
              with_gate r w codecs settings s
                (receive_webhook r w codecs settings at q (gate_of r w codecs settings s)).1)))
  unfolding is_active_route
  accepted-IsOnward q id s world taken fresh undisturbed few =
      let after = receive_webhook r w codecs settings at q (gate_of r w codecs settings s) in
      let relay = relay_of r w codecs settings (with_gate r w codecs settings s after.1) in
      let (endpoint, payload, admitted, stored) =
        Handled-accepted q id s.db (gate_of r w codecs settings s).windows after
          (receive-Handled r w codecs settings at q (gate_of r w codecs settings s)) taken in
      let event = stored_event r w codecs settings at endpoint q payload in
      let still_stored = poll-IsStored at.event_id event world relay (
        subst (λ (d : Db). IsStored at.event_id event d.events) (sym stored)
          (IsStored-new_row q endpoint payload s.db fresh)) in
      record {
        endpoint = endpoint;
        payload = payload;
        admitted = admitted;
        published =
            message_published world endpoint relay s.db.outbox undisturbed
              (ap (λ (d : Db). d.outbox) stored) few;
        dispatched = stored-dispatched q endpoint payload (poll world relay).db still_stored;
        told = λ sends.
            subst
              (IsPublished tools settings sends event
                (active_routes endpoint.id (poll world relay).db))
              (sym (stored-dispatched q endpoint payload (poll world relay).db still_stored sends))
              (routes-IsPublished tools settings sends event
                (active_routes endpoint.id (poll world relay).db));
      }
