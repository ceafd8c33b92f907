-- ===== src/Events/Requests.antt =====
-- app/api/events.py: the requests on events, the role check before the handler.
use webhook_relay_service.Model.Settings.{Settings}
use webhook_relay_service.Workspaces.Members.{with_role}
use webhook_relay_service.Workspaces.{Commit}
use webhook_relay_service.Rbac.{Tokens, require_workspace_role}
use webhook_relay_service.Prelude.{Bool, List, Option, Text, codes}
use webhook_relay_service.Model.Rows.{DeliveryAttempt, Event, User}
use webhook_relay_service.Model.Db.{Db}
use webhook_relay_service.Http.Action.{Action, continue}
use webhook_relay_service.Events.Replay.{Producer, Replayer, Replaying, replay_event_as}
use webhook_relay_service.Events.Listing.{Page, get_event_as, get_event_attempts_as, list_events_as}
use webhook_relay_service.Events.DeadLetters.{DlqEventOut, list_dlq_as}
use webhook_relay_service.Events.{EventReply, discard_as, restore_as}

module _ (tokens : Tokens) (at : Commit) where
  unfoldable pub list_events : Text → User → Option Text → Page → Action Db (List Event)
  list_events workspace_id user endpoint_id page =
      with_role tokens at (codes "viewer") workspace_id user
        (λ membership. list_events_as tokens at membership endpoint_id page)

  unfoldable pub get_event : Text → User → Text → Action Db Event
  get_event workspace_id user event_id =
      with_role tokens at (codes "viewer") workspace_id user
        (λ membership. get_event_as tokens at membership event_id)

  unfoldable pub get_event_attempts : Text → User → Text → Action Db (List DeliveryAttempt)
  get_event_attempts workspace_id user event_id =
      with_role tokens at (codes "viewer") workspace_id user
        (λ membership. get_event_attempts_as tokens at membership event_id)

  unfoldable pub list_dlq : Text → User → Bool → Page → Action Db (List DlqEventOut)
  list_dlq workspace_id user include_discarded page =
      with_role tokens at (codes "viewer") workspace_id user
        (λ membership. list_dlq_as membership include_discarded page)

  unfoldable pub discard_dlq_event : Text → User → Text → Action Db EventReply
  discard_dlq_event workspace_id user event_id =
      with_role tokens at (codes "admin") workspace_id user
        (λ membership. discard_as tokens at membership event_id)

  unfoldable pub restore_dlq_event : Text → User → Text → Action Db EventReply
  restore_dlq_event workspace_id user event_id =
      with_role tokens at (codes "admin") workspace_id user
        (λ membership. restore_as tokens at membership event_id)

  unfoldable pub replay_event : Settings → Text → User → Producer → Text → Action Replayer Replaying
  replay_event settings workspace_id user producer event_id s =
      continue (require_workspace_role tokens (codes "admin") workspace_id user s.db)
        (λ membership. replay_event_as tokens at settings membership producer event_id) s
