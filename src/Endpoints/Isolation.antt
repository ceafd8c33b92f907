-- ===== src/Endpoints/Isolation.antt =====
-- A user and the endpoints of a workspace that the user is no member of.
use webhook_relay_service.Endpoints.Untouched.{
  add_route-IsBystander, create-IsBystander, delete_endpoint-IsBystander, delete_route-IsBystander,
  rotate-IsBystander, update-IsBystander, update_route-IsBystander,
}
use mathlib.Core.Path.{subst}
use webhook_relay_service.Workspaces.Members.{with_role}
use webhook_relay_service.Workspaces.{Commit}
use webhook_relay_service.UrlSecurity.{Net}
use webhook_relay_service.Rbac.Access.{require_role_iff}
use webhook_relay_service.Rbac.{Tokens, require_workspace_role}
use webhook_relay_service.Prelude.{
  Bool-cases, List, Text, find-holds, inl, inr, none, refl, some, ℕ, ◌==◌, ◌≡◌, ◌∙◌, sym, codes,
  arith,
}
use webhook_relay_service.Model.Settings.{Settings}
use webhook_relay_service.Model.Rows.{Endpoint, Route, User, WorkspaceMembership}
use webhook_relay_service.Model.Db.{Db, endpoint_by_id, is_member, membership_by_id}
use webhook_relay_service.Http.Action.{Action}
use webhook_relay_service.Endpoints.Routes.{RouteCreate}
use webhook_relay_service.Endpoints.Requests.{
  add_route, create_endpoint, delete_route, rotate_secret, update_endpoint, update_route,
  delete_endpoint,
}
use webhook_relay_service.Endpoints.Patches.{RouteUpdate}
use webhook_relay_service.Endpoints.Lookups.{routes_of}
use webhook_relay_service.Endpoints.Guards.{Result-cases}
use webhook_relay_service.Endpoints.Bystanders.{IsBystander}
use webhook_relay_service.Endpoints.{EndpointCreate, EndpointUpdate, Generated}
use webhook_relay_service.Http.{ok}

pub data EndpointRequest : Type 0 where
  create : Text → EndpointCreate → EndpointRequest
  update : Text → Text → EndpointUpdate → EndpointRequest
  remove rotate : Text → Text → EndpointRequest
  add_to : Text → Text → RouteCreate → EndpointRequest
  change_route : Text → Text → RouteUpdate → EndpointRequest
  remove_route : Text → Text → EndpointRequest

module _ (tokens : Tokens) (net : Net) (settings : Settings) (at : Commit) (made : Generated)
    (user : User) (db : Db) where
  -- The database after a request, whether it succeeded or raised.
  unfoldable pub after_request : EndpointRequest → Db
  after_request (create workspace_id body) =
      (create_endpoint tokens net settings at made workspace_id user body db).1
  after_request (update workspace_id endpoint_id body) =
      (update_endpoint tokens net settings at made workspace_id user endpoint_id body db).1
  after_request (remove workspace_id endpoint_id) =
      (delete_endpoint tokens net settings at made workspace_id user endpoint_id db).1
  after_request (rotate workspace_id endpoint_id) =
      (rotate_secret tokens net settings at made workspace_id user endpoint_id db).1
  after_request (add_to workspace_id endpoint_id body) =
      (add_route tokens net settings at made workspace_id user endpoint_id body db).1
  after_request (change_route workspace_id route_id body) =
      (update_route tokens net settings at made workspace_id user route_id body db).1
  after_request (remove_route workspace_id route_id) =
      (delete_route tokens net settings at made workspace_id user route_id db).1

  module _ (id : ℕ) (ep : Endpoint) (stored : endpoint_by_id id db ≡ some ep)
      (outsider : membership_by_id user.id ep.workspace_id db ≡ none) where
    abbrev rows : List Route
    rows = routes_of id db.routes

    IsBystander-outsider :
        (role workspace_id : Text) (m : WorkspaceMembership)
        → require_workspace_role tokens role workspace_id user db ≡ ok m
        → IsBystander m id ep rows db
    unfolding membership_by_id
    IsBystander-outsider role workspace_id m checked =
        let (ws_id, _, found, _) =
          (require_role_iff tokens workspace_id user db m role).0 checked in
        let member = find-holds (is_member user.id ws_id) db.memberships m found in
        record {
          stored = stored;
          its_routes = refl;
          elsewhere = elim (Bool-cases (ep.workspace_id == m.workspace_id)) [
            | inl same ↦
                (let place : ws_id ≡ ep.workspace_id = ground (arith, member, same) in
                  let joined : membership_by_id user.id ep.workspace_id db ≡ some m =
                    subst (λ n. membership_by_id user.id n db ≡ some m) place found in
                  absurd (let clash = sym outsider ∙ joined in cc))
            | inr differs ↦ differs
          ];
        }

    IsUntouched-with_role :
        {A : Type 0} (role workspace_id : Text) (body : WorkspaceMembership → Action Db A)
        → ((m : WorkspaceMembership)
            → IsBystander m id ep rows db
            → IsBystander m id ep rows (body m db).1)
        → (endpoint_by_id id (with_role tokens at role workspace_id user body db).1 ≡ some ep)
          × (routes_of id (with_role tokens at role workspace_id user body db).1.routes ≡ rows)
    IsUntouched-with_role role workspace_id body keeps =
        elim (Result-cases (require_workspace_role tokens role workspace_id user db)) [
          | inl (e, refused) ↦ rw refused (stored, refl)
          | inr (m, checked) ↦
              (let after = keeps m (IsBystander-outsider role workspace_id m checked) in
                rw checked (after.stored, after.its_routes))
        ]

    -- Whatever a user asks of endpoints and routes, in whichever workspace: a stored endpoint of a
    -- workspace that the user is no member of stays as it was, and so do its routes.
    pub outsider-IsUntouched :
        (q : EndpointRequest)
        → (endpoint_by_id id (after_request q) ≡ some ep)
          × (routes_of id (after_request q).routes ≡ routes_of id db.routes)
    unfolding after_request create_endpoint update_endpoint delete_endpoint rotate_secret add_route
        update_route delete_route
    outsider-IsUntouched (create workspace_id body) =
        IsUntouched-with_role (codes "member") workspace_id _
          (λ m by. create-IsBystander tokens net settings at made m db id ep rows by body)
    outsider-IsUntouched (update workspace_id endpoint_id body) =
        IsUntouched-with_role (codes "admin") workspace_id _ (λ m by.
          update-IsBystander tokens net settings at made m db id ep rows by endpoint_id body)
    outsider-IsUntouched (remove workspace_id endpoint_id) =
        IsUntouched-with_role (codes "admin") workspace_id _ (λ m by.
          delete_endpoint-IsBystander tokens net settings at made m db id ep rows by endpoint_id)
    outsider-IsUntouched (rotate workspace_id endpoint_id) =
        IsUntouched-with_role (codes "admin") workspace_id _
          (λ m by. rotate-IsBystander tokens net settings at made m db id ep rows by endpoint_id)
    outsider-IsUntouched (add_to workspace_id endpoint_id body) =
        IsUntouched-with_role (codes "member") workspace_id _ (λ m by.
          add_route-IsBystander tokens net settings at made m db id ep rows by endpoint_id body)
    outsider-IsUntouched (change_route workspace_id route_id body) =
        IsUntouched-with_role (codes "admin") workspace_id _ (λ m by.
          update_route-IsBystander tokens net settings at made m db id ep rows by route_id body)
    outsider-IsUntouched (remove_route workspace_id route_id) =
        IsUntouched-with_role (codes "admin") workspace_id _
          (λ m by. delete_route-IsBystander tokens net settings at made m db id ep rows by route_id)
