-- ===== src/Model/Db.antt =====
-- The database: the rows of each table, oldest first. `db.get` looks a row up by its primary key.
use webhook_relay_service.Prelude.{Bool, List, Option, [], find, ℕ, ◌&&◌, ◌==◌}
use webhook_relay_service.Model.Rows.{
  DeliveryAttempt, Endpoint, Event, OutboxRecord, Route, User, Workspace, WorkspaceMembership,
}

pub record Db : Type 0 where
  pub users : List User
  pub workspaces : List Workspace
  pub memberships : List WorkspaceMembership
  pub endpoints : List Endpoint
  pub routes : List Route
  pub events : List Event
  pub outbox : List OutboxRecord
  pub attempts : List DeliveryAttempt

abbrev pub empty_db : Db
empty_db = record {
  users = [];
  workspaces = [];
  memberships = [];
  endpoints = [];
  routes = [];
  events = [];
  outbox = [];
  attempts = [];
}

unfoldable pub endpoint_by_id : ℕ → Db → Option Endpoint
endpoint_by_id id db = find (λ e. e.id == id) db.endpoints

unfoldable pub event_by_id : ℕ → Db → Option Event
event_by_id id db = find (λ e. e.id == id) db.events

unfoldable pub route_by_id : ℕ → Db → Option Route
route_by_id id db = find (λ x. x.id == id) db.routes

unfoldable pub user_by_id : ℕ → Db → Option User
user_by_id id db = find (λ u. u.id == id) db.users

abbrev pub is_member : ℕ → ℕ → WorkspaceMembership → Bool
is_member user_id workspace_id m = m.user_id == user_id && m.workspace_id == workspace_id

unfoldable pub membership_by_id : ℕ → ℕ → Db → Option WorkspaceMembership
membership_by_id user_id workspace_id db = find (is_member user_id workspace_id) db.memberships
