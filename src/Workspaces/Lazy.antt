-- ===== src/Workspaces/Lazy.antt =====
-- app/api/workspaces.py: the handlers that read `membership.workspace`, a relationship that is
-- loaded when it is read. The membership comes from a session that is closed by then, so what the
-- read gives is the parameter `load`, where `none` is an exception of SQLAlchemy.
use webhook_relay_service.Endpoints.{is_used}
use webhook_relay_service.Http.Action.{◌>>=◌}
use webhook_relay_service.Workspaces.Members.{with_role}
use webhook_relay_service.Workspaces.{Commit, WorkspaceOut, commit}
use webhook_relay_service.Rbac.{Tokens}
use webhook_relay_service.Prelude.{
  List, Option, Text, [], any, codes, if◌then◌else◌, keep, none, not, some, ◌==◌, ◌∷◌,
}
use webhook_relay_service.Model.Rows.{User, WorkspaceMembership, Workspace, Endpoint, Route}
use webhook_relay_service.Model.Db.{Db}
use webhook_relay_service.Http.Action.{Action, lift, pure}
use webhook_relay_service.Http.{http_error, or_raise}

abbrev pub out_of : Workspace → WorkspaceMembership → WorkspaceOut
out_of ws membership = record {
  id = ws.id;
  name = ws.name;
  slug = ws.slug;
  created_at = ws.created_at;
  role = some membership.role;
}

-- The row of the same primary key is written.
abbrev pub write_workspace : Workspace → List Workspace → List Workspace
write_workspace x [] = []
write_workspace x (y ∷ ys) =
    let rest = write_workspace x ys in if y.id == x.id then x ∷ ys else y ∷ rest

-- `if body.name is not None: ws.name = body.name`.
abbrev pub renamed : Option Text → Workspace → Workspace
renamed none ws = ws
renamed (some name) ws = record ws { name = name }

module _ (tokens : Tokens) (at : Commit) (load : WorkspaceMembership → Option Workspace) where
  abbrev pub read_workspace : WorkspaceMembership → Action Db Workspace
  read_workspace membership = lift (or_raise (load membership) 500 "DetachedInstanceError")

  unfoldable pub get_workspace : Text → User → Action Db WorkspaceOut
  get_workspace workspace_id user =
      with_role tokens at (codes "viewer") workspace_id user
        (λ membership. do ws ← read_workspace membership; pure (out_of ws membership))

  unfoldable pub update_workspace : Text → User → Option Text → Action Db WorkspaceOut
  update_workspace workspace_id user name =
      with_role tokens at (codes "admin") workspace_id user (λ membership. do
        ws ← read_workspace membership
        λ db.
            commit at (out_of (renamed name ws) membership)
              (record db { workspaces = write_workspace (renamed name ws) db.workspaces }) db)

  -- The memberships and the endpoints go with their workspace, and the routes with the endpoints; a
  -- row that refers to one of those endpoints or routes stops the deletion.
  unfoldable pub delete_workspace : Text → User → Action Db Unit
  delete_workspace workspace_id user =
      with_role tokens at (codes "owner") workspace_id user (λ membership. do
        ws ← read_workspace membership
        λ db.
            let gone = keep (λ (ep : Endpoint). ep.workspace_id == ws.id) db.endpoints in
            if any (λ (ep : Endpoint). is_used ep.id db) gone
            then (http_error 500 "IntegrityError", db)
            else commit at tt
                (record db {
                  workspaces = keep (λ (x : Workspace). not (x.id == ws.id)) db.workspaces;
                  memberships =
                      keep (λ (m : WorkspaceMembership). not (m.workspace_id == ws.id))
                        db.memberships;
                  endpoints = keep (λ (ep : Endpoint). not (ep.workspace_id == ws.id)) db.endpoints;
                  routes =
                      keep
                        (λ (x : Route). not (any (λ (ep : Endpoint). ep.id == x.endpoint_id) gone))
                        db.routes;
                })
                db)
