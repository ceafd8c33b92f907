-- ===== src/Events/Replayed.antt =====
-- What a replay publishes, and what the transform worker makes of it.
use webhook_relay_service.Model.Settings.{Settings}
use webhook_relay_service.Events.Requests.{replay_event}
use webhook_relay_service.Endpoints.Guards.{Result-cases}
use webhook_relay_service.Workspaces.{Commit}
use webhook_relay_service.TransformWorker.{
  Transformed, dispatch_routes, is_active_route, process_event,
}
use webhook_relay_service.Transform.{Tools}
use webhook_relay_service.Rbac.{Tokens, require_workspace_role}
use webhook_relay_service.Prelude.{
  Bool, Option-cases, Text, [], inl, inr, keep, true, ℕ, ◌++◌, ◌∷◌, ◌≡◌, some, codes, refl, false,
  ◌∙◌, ◌==◌, find, ap,
}
use webhook_relay_service.Model.Rows.{Event, WorkspaceMembership, User}
use webhook_relay_service.Model.Db.{Db, event_by_id}
use webhook_relay_service.Events.Replay.{
  Producer, ReplayMessage, Replayer, Replaying, publish_replay, replay_event_as, available,
  unavailable, message_for_replay,
}
use webhook_relay_service.Events.Discarding.{IsOwn, found-id}
use webhook_relay_service.Events.Changes.{own_event-cases}
use webhook_relay_service.Http.{ok}

-- One message was published to the topic of raw events, for the event that was asked for, one of the
-- caller's workspace, and the transform worker that takes it dispatches that event to the active
-- routes of its endpoint.
pub record IsReplayed (tokens : Tokens) (settings : Settings) (tools : Tools) (event_id : Text)
    (membership : WorkspaceMembership) (s s' : Replayer) : Type 0 where
  pub event : Event
  pub ev_id : ℕ
  pub parsed : tokens.parse_uuid event_id ≡ some ev_id
  pub own : IsOwn membership ev_id event s.db
  pub same_db : s'.db ≡ s.db
  pub message : ReplayMessage
  pub published : s'.messages ≡ s.messages ++ message ∷ []
  pub on_topic : message.topic ≡ settings.kafka_topic_raw_events
  pub names : (message.event_id ≡ ev_id) × (message.endpoint_id ≡ event.endpoint_id)
  pub is_replay : message.is_replay ≡ true
  pub dispatched :
      (sends : Transformed → Bool)
      → process_event tools settings sends s.db message.event_id message.endpoint_id
        ≡ dispatch_routes tools settings sends event
            (keep (is_active_route event.endpoint_id) s.db.routes)

module _ (tokens : Tokens) (at : Commit) (settings : Settings) (tools : Tools) where
  process_own :
      (membership : WorkspaceMembership) (ev_id : ℕ) (event : Event) (db : Db)
      (sends : Transformed → Bool)
      → IsOwn membership ev_id event db
      → process_event tools settings sends db event.id event.endpoint_id
        ≡ dispatch_routes tools settings sends event
            (keep (is_active_route event.endpoint_id) db.routes)
  unfolding process_event event_by_id
  process_own membership ev_id event db sends own =
      let found : event_by_id event.id db ≡ some event =
        ap (λ id. find (λ (e : Event). e.id == id) db.events)
          (found-id ev_id event db.events own.found)
        ∙ own.found in
      rw (found, process_event) refl

  published-IsReplayed :
      (producer : Producer) (membership : WorkspaceMembership) (event_id : Text) (ev_id : ℕ)
      (event : Event) (s : Replayer) (reply : Replaying)
      → tokens.parse_uuid event_id ≡ some ev_id
      → IsOwn membership ev_id event s.db
      → (publish_replay tokens at settings producer event s).0 ≡ ok reply
      → IsReplayed tokens settings tools event_id membership s
          (publish_replay tokens at settings producer event s).1
  published-IsReplayed unavailable membership event_id ev_id event s reply parsed own h = absurd cc
  published-IsReplayed (available false) membership event_id ev_id event s reply parsed own h =
      absurd cc
  published-IsReplayed (available true) membership event_id ev_id event s reply parsed own h =
      record {
        event = event;
        ev_id = ev_id;
        parsed = parsed;
        own = own;
        same_db = refl;
        message = message_for_replay tokens at settings event;
        on_topic = refl;
        names = (found-id ev_id event s.db.events own.found, refl);
        published = refl;
        is_replay = refl;
        dispatched = λ sends. process_own membership ev_id event s.db sends own;
      }

  replay_as-IsReplayed :
      (producer : Producer) (membership : WorkspaceMembership) (event_id : Text) (s : Replayer)
      (reply : Replaying)
      → (replay_event_as tokens at settings membership producer event_id s).0 ≡ ok reply
      → IsReplayed tokens settings tools event_id membership s
          (replay_event_as tokens at settings membership producer event_id s).1
  unfolding replay_event_as
  replay_as-IsReplayed producer membership event_id s reply h =
      elim (Option-cases (tokens.parse_uuid event_id)) [
        | inl bad ↦ absurd (let k = rw bad at h in cc)
        | inr (ev_id, parsed) ↦ elim (own_event-cases tokens at membership s.db ev_id) [
          | inl (e, refused) ↦ absurd (let k = rw (parsed, refused) at h in cc)
          | inr (event, found, own) ↦
              let k = rw (parsed, found) at h in
              rw parsed (
                rw found (
                  published-IsReplayed producer membership event_id ev_id event s reply parsed own
                    k))
        ]
      ]

  -- If the request to replay an event succeeds, the user is a member of the workspace whose role is
  -- at least admin, the database is as it was, and one message was published to the topic of raw
  -- events, marked as a replay, with the id that was asked for and that of its endpoint, of that
  -- workspace: the transform worker that takes it dispatches that event to the
  -- active routes of its endpoint, in their order.
  pub replay_event-IsReplayed :
      (producer : Producer) (workspace_id : Text) (user : User) (event_id : Text) (s : Replayer)
      (reply : Replaying)
      → (replay_event tokens at settings workspace_id user producer event_id s).0 ≡ ok reply
      → (m : WorkspaceMembership) × (require_workspace_role tokens
            (codes "admin")
            workspace_id
            user
            s.db
          ≡ ok m)
        × IsReplayed tokens settings tools event_id m s
            (replay_event tokens at settings workspace_id user producer event_id s).1
  unfolding replay_event
  replay_event-IsReplayed producer workspace_id user event_id s reply h =
      elim (Result-cases (require_workspace_role tokens (codes "admin") workspace_id user s.db)) [
        | inl (e, refused) ↦ absurd (let k = rw refused at h in cc)
        | inr (m, checked) ↦
            let k = rw checked at h in
            (m, checked, rw checked (replay_as-IsReplayed producer m event_id s reply k))
      ]
