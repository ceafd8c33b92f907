-- ===== src/Events.antt =====
-- app/api/events.py: the handlers that discard an event and restore it, for the membership that the
-- role check returns; the children have the other handlers. An exception that is not caught is the
-- status 500.
pub mod Belonging
pub mod Replayed
pub mod Changes
pub mod Reads
pub mod Requests
pub mod Shown
pub mod Replay
pub mod DeadLetters
pub mod Listing
mod Examples
pub mod Discarding
use webhook_relay_service.Workspaces.{Commit, commit}
use webhook_relay_service.Rbac.{Tokens}
use webhook_relay_service.Prelude.{
  Bool, List, Option, Text, [], false, if◌then◌else◌, none, not, some, true, ℕ, ◌==◌, ◌∷◌,
}
use webhook_relay_service.Model.Rows.{Event, WorkspaceMembership}
use webhook_relay_service.Model.Db.{Db, endpoint_by_id, event_by_id}
use webhook_relay_service.Http.{Result, or_raise, raise_if, ok}
use webhook_relay_service.Http.Action.{◌>>=◌, ◌>>◌, Action, lift, pure, gets}

pub data EventReply : Type 0 where
  discarded already_discarded restored : ℕ → EventReply

-- `db.get(Event, id)` whose row is then written.
unfoldable pub write_event_row : Event → List Event → List Event
write_event_row x [] = []
write_event_row x (y ∷ ys) =
    let rest = write_event_row x ys in if y.id == x.id then x ∷ ys else y ∷ rest

module _ (tokens : Tokens) (at : Commit) where
  abbrev pub parse_event_id : Text → Result ℕ
  parse_event_id value = or_raise (tokens.parse_uuid value) 400 "invalid event_id format"

  -- `_get_event_or_404`.
  unfoldable pub own_event : WorkspaceMembership → ℕ → Action Db Event
  own_event membership ev_id = do
    found ← gets (event_by_id ev_id)
    event ← lift (or_raise found 404 "event not found")
    found_ep ← gets (endpoint_by_id event.endpoint_id)
    ep ← lift (or_raise found_ep 404 "event not found")
    lift (raise_if (not (ep.workspace_id == membership.workspace_id)) 404 "event not found")
    pure event

  abbrev pub mark : Event → Bool → Option ℕ → Db → Db
  mark event is_discarded discarded_at db = record db {
    events =
        write_event_row (record event { is_discarded = is_discarded; discarded_at = discarded_at })
          db.events;
  }

  unfoldable pub discard_as : WorkspaceMembership → Text → Action Db EventReply
  discard_as membership event_id = do
    ev_id ← lift (parse_event_id event_id)
    event ← own_event membership ev_id
    λ db.
        if event.is_discarded
        then (ok (already_discarded ev_id), db)
        else commit at (discarded ev_id) (mark event true (some at.now) db) db

  unfoldable pub restore_as : WorkspaceMembership → Text → Action Db EventReply
  restore_as membership event_id = do
    ev_id ← lift (parse_event_id event_id)
    event ← own_event membership ev_id
    λ db. commit at (restored ev_id) (mark event false none db) db
