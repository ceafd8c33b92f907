-- ===== src/Endpoints/Routes.antt =====
-- app/api/endpoints.py: the routes of an endpoint.
use webhook_relay_service.Workspaces.{Commit, commit}
use webhook_relay_service.UrlSecurity.{Headers, Net, redact_headers, validate_delivery_url}
use webhook_relay_service.Rbac.{Tokens}
use webhook_relay_service.Prelude.{
  Bool, List, Option, Text, [], any, if◌then◌else◌, keep, leb, map, not, true, ℕ, ◌++◌, ◌==◌, ◌∷◌,
}
use webhook_relay_service.Model.Settings.{Settings}
use webhook_relay_service.Model.Rows.{DeliveryAttempt, Route, WorkspaceMembership}
use webhook_relay_service.Model.Json.{Fields}
use webhook_relay_service.Model.Db.{Db, endpoint_by_id, route_by_id}
use webhook_relay_service.Http.{http_error, or_raise, raise_if}
use webhook_relay_service.Endpoints.Patches.{RouteUpdate, check_url, patched}
use webhook_relay_service.Endpoints.{Generated, own_endpoint, parse_id}
use webhook_relay_service.Http.Action.{◌>>=◌, ◌>>◌, lift, gets, pure, Action}

-- The fields of `RouteCreate`, defaults filled in.
pub record RouteCreate : Type 0 where
  pub name : Text
  pub url : Text
  pub method : Text
  pub headers : Option Headers
  pub transform_pipeline : Option (List Fields)
  pub timeout_ms : ℕ
  pub max_retries : ℕ
  pub retry_backoff_ms : ℕ
  pub rate_limit_rpm : Option ℕ
  pub filter_expression : Option Text

pub record RouteOut : Type 0 where
  pub id : ℕ
  pub name : Text
  pub url : Text
  pub method : Text
  pub is_active : Bool
  pub timeout_ms : ℕ
  pub max_retries : ℕ
  pub created_at : ℕ
  pub rate_limit_rpm : Option ℕ
  pub filter_expression : Option Text
  pub transform_pipeline : Option (List Fields)
  pub headers : Option Headers
  pub retry_backoff_ms : ℕ

-- `_route_out`.
unfoldable pub route_out : Route → RouteOut
route_out x = record {
  id = x.id;
  name = x.name;
  url = x.url;
  method = x.method;
  is_active = x.is_active;
  timeout_ms = x.timeout_ms;
  max_retries = x.max_retries;
  created_at = x.created_at;
  rate_limit_rpm = x.rate_limit_rpm;
  filter_expression = x.filter_expression;
  transform_pipeline = x.transform_pipeline;
  headers = redact_headers x.headers;
  retry_backoff_ms = x.retry_backoff_ms;
}

abbrev pub write_route : Route → List Route → List Route
write_route x [] = []
write_route x (y ∷ ys) = let rest = write_route x ys in if y.id == x.id then x ∷ ys else y ∷ rest

abbrev pub without_route : ℕ → List Route → List Route
without_route id [] = []
without_route id (y ∷ ys) = let rest = without_route id ys in if y.id == id then ys else y ∷ rest

-- `order_by(Route.created_at)`.
abbrev pub insert_route : Route → List Route → List Route
insert_route x [] = x ∷ []
insert_route x (y ∷ ys) =
    let rest = insert_route x ys in if leb x.created_at y.created_at then x ∷ y ∷ ys else y ∷ rest

abbrev pub sort_routes : List Route → List Route
sort_routes [] = []
sort_routes (x ∷ xs) = insert_route x (sort_routes xs)

module _ (tokens : Tokens) (net : Net) (settings : Settings) (at : Commit) (made : Generated) where
  unfoldable pub list_routes_as : WorkspaceMembership → Text → Action Db (List RouteOut)
  list_routes_as membership endpoint_id = do
    ep_id ← lift (parse_id tokens at made endpoint_id)
    _ ← own_endpoint tokens at made membership ep_id
    gets
        (λ db. map route_out (sort_routes (keep (λ (x : Route). x.endpoint_id == ep_id) db.routes)))

  abbrev pub new_route : ℕ → RouteCreate → Route
  new_route endpoint_id body = record {
    id = at.new_id;
    endpoint_id = endpoint_id;
    name = body.name;
    url = body.url;
    method = body.method;
    headers = body.headers;
    transform_pipeline = body.transform_pipeline;
    rate_limit_rpm = body.rate_limit_rpm;
    timeout_ms = body.timeout_ms;
    max_retries = body.max_retries;
    retry_backoff_ms = body.retry_backoff_ms;
    is_active = true;
    filter_expression = body.filter_expression;
    created_at = at.now;
  }

  unfoldable pub add_route_as : WorkspaceMembership → Text → RouteCreate → Action Db RouteOut
  add_route_as membership endpoint_id body = do
    ep_id ← lift (parse_id tokens at made endpoint_id)
    _ ← lift (validate_delivery_url net settings body.url)
    ep ← own_endpoint tokens at made membership ep_id
    λ db.
        commit at (route_out (new_route ep.id body))
          (record db { routes = db.routes ++ new_route ep.id body ∷ [] }) db

  -- The route of an id, if its endpoint is one of the member's workspace.
  unfoldable pub own_route : WorkspaceMembership → ℕ → Action Db Route
  own_route membership r_id = do
    found ← gets (route_by_id r_id)
    row ← lift (or_raise found 404 "route not found")
    found_ep ← gets (endpoint_by_id row.endpoint_id)
    ep ← lift (or_raise found_ep 404 "route not found")
    lift (raise_if (not (ep.workspace_id == membership.workspace_id)) 404 "route not found")
    pure row

  unfoldable pub update_route_as : WorkspaceMembership → Text → RouteUpdate → Action Db RouteOut
  update_route_as membership route_id body = do
    r_id ← lift (parse_id tokens at made route_id)
    row ← own_route membership r_id
    lift (check_url net settings body.url)
    row' ← lift (patched body row)
    λ db. commit at (route_out row') (record db { routes = write_route row' db.routes }) db

  -- A route that a delivery attempt refers to cannot be deleted.
  unfoldable pub delete_route_as : WorkspaceMembership → Text → Action Db Unit
  delete_route_as membership route_id = do
    r_id ← lift (parse_id tokens at made route_id)
    _ ← own_route membership r_id
    λ db.
        if any (λ (a : DeliveryAttempt). a.route_id == r_id) db.attempts
        then (http_error 500 "IntegrityError", db)
        else commit at tt (record db { routes = without_route r_id db.routes }) db
