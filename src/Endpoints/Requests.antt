-- ===== src/Endpoints/Requests.antt =====
-- app/api/endpoints.py: the requests on endpoints and routes, the role check before the handler.
use webhook_relay_service.Workspaces.Members.{with_role}
use webhook_relay_service.Workspaces.{Commit}
use webhook_relay_service.UrlSecurity.{Net}
use webhook_relay_service.Rbac.{Tokens}
use webhook_relay_service.Prelude.{List, Text, [], codes, if◌then◌else◌, keep, leb, ◌==◌, ◌∷◌}
use webhook_relay_service.Model.Settings.{Settings}
use webhook_relay_service.Model.Rows.{User}
use webhook_relay_service.Model.Db.{Db}
use webhook_relay_service.Endpoints.Routes.{
  RouteCreate, RouteOut, add_route_as, delete_route_as, list_routes_as, update_route_as,
}
use webhook_relay_service.Endpoints.Patches.{RouteUpdate}
use webhook_relay_service.Endpoints.{
  EndpointCreate, EndpointUpdate, Generated, create_endpoint_as, delete_endpoint_as, own_endpoint,
  parse_id, rotate_secret_as, update_endpoint_as, Endpoint,
}
use webhook_relay_service.Http.Action.{◌>>=◌, gets, lift, Action}

-- `order_by(Endpoint.created_at.desc())`.
abbrev pub insert_newest_endpoint : Endpoint → List Endpoint → List Endpoint
insert_newest_endpoint x [] = x ∷ []
insert_newest_endpoint x (y ∷ ys) =
    let rest = insert_newest_endpoint x ys in
    if leb y.created_at x.created_at then x ∷ y ∷ ys else y ∷ rest

abbrev pub newest_endpoints : List Endpoint → List Endpoint
newest_endpoints [] = []
newest_endpoints (x ∷ xs) = insert_newest_endpoint x (newest_endpoints xs)

module _ (tokens : Tokens) (net : Net) (settings : Settings) (at : Commit) (made : Generated) where
  unfoldable pub list_endpoints : Text → User → Action Db (List Endpoint)
  list_endpoints workspace_id user =
      with_role tokens at (codes "viewer") workspace_id user (λ membership. gets (λ db.
        newest_endpoints
          (keep (λ (ep : Endpoint). ep.workspace_id == membership.workspace_id) db.endpoints)))

  unfoldable pub get_endpoint : Text → User → Text → Action Db Endpoint
  get_endpoint workspace_id user endpoint_id =
      with_role tokens at (codes "viewer") workspace_id user (λ membership. do
        ep_id ← lift (parse_id tokens at made endpoint_id)
        own_endpoint tokens at made membership ep_id)

  unfoldable pub list_routes : Text → User → Text → Action Db (List RouteOut)
  list_routes workspace_id user endpoint_id =
      with_role tokens at (codes "viewer") workspace_id user
        (λ membership. list_routes_as tokens net settings at made membership endpoint_id)

  unfoldable pub create_endpoint : Text → User → EndpointCreate → Action Db Endpoint
  create_endpoint workspace_id user body =
      with_role tokens at (codes "member") workspace_id user
        (λ membership. create_endpoint_as tokens at made membership body)

  unfoldable pub update_endpoint : Text → User → Text → EndpointUpdate → Action Db Endpoint
  update_endpoint workspace_id user endpoint_id body =
      with_role tokens at (codes "admin") workspace_id user
        (λ membership. update_endpoint_as tokens at made membership endpoint_id body)

  unfoldable pub delete_endpoint : Text → User → Text → Action Db Unit
  delete_endpoint workspace_id user endpoint_id =
      with_role tokens at (codes "admin") workspace_id user
        (λ membership. delete_endpoint_as tokens at made membership endpoint_id)

  unfoldable pub rotate_secret : Text → User → Text → Action Db Text
  rotate_secret workspace_id user endpoint_id =
      with_role tokens at (codes "admin") workspace_id user
        (λ membership. rotate_secret_as tokens at made membership endpoint_id)

  unfoldable pub add_route : Text → User → Text → RouteCreate → Action Db RouteOut
  add_route workspace_id user endpoint_id body =
      with_role tokens at (codes "member") workspace_id user
        (λ membership. add_route_as tokens net settings at made membership endpoint_id body)

  unfoldable pub update_route : Text → User → Text → RouteUpdate → Action Db RouteOut
  update_route workspace_id user route_id body =
      with_role tokens at (codes "admin") workspace_id user
        (λ membership. update_route_as tokens net settings at made membership route_id body)

  unfoldable pub delete_route : Text → User → Text → Action Db Unit
  delete_route workspace_id user route_id =
      with_role tokens at (codes "admin") workspace_id user
        (λ membership. delete_route_as tokens net settings at made membership route_id)
