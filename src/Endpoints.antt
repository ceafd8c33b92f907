-- ===== src/Endpoints.antt =====
-- app/api/endpoints.py: the handlers on the endpoints of a workspace, for the membership that the
-- role check returns. An exception that is not caught is the status 500.
pub mod Responses
pub mod Isolation
pub mod Untouched
pub mod Lookups
pub mod Requests
pub mod Bystanders
mod Examples
pub mod Guards
pub mod SafeUrls
pub mod Patches
pub mod Routes
use webhook_relay_service.Http.Action.{◌>>=◌, ◌>>◌}
use webhook_relay_service.Workspaces.{Commit, commit}
use webhook_relay_service.UrlSecurity.{text_of}
use webhook_relay_service.Rbac.{Tokens}
use webhook_relay_service.Prelude.{
  Bool, List, Option, Text, [], any, if◌then◌else◌, keep, none, not, some, true, ℕ, ◌++◌, ◌==◌,
  ◌||◌, ◌∷◌,
}
use webhook_relay_service.Model.Rows.{DeliveryAttempt, Endpoint, Event, Route, WorkspaceMembership}
use webhook_relay_service.Model.Json.{end, Fields, field}
use webhook_relay_service.Model.Db.{Db, endpoint_by_id}
use webhook_relay_service.Http.Action.{Action, gets, lift, pure}
use webhook_relay_service.Http.{Result, filled, http_error, or_raise, raise_if}

-- `secrets.token_hex(32)` and `json.dumps` for one request.
pub record Generated : Type 0 where
  pub secret : Text
  pub dumps : Fields → Text

pub record EndpointCreate : Type 0 where
  pub name : Text
  pub hmac_secret : Option Text
  pub rate_limit_rps : Option ℕ
  pub request_body_schema : Option Fields

pub record EndpointUpdate : Type 0 where
  pub name : Option Text
  pub is_active : Option Bool
  pub rate_limit_rps : Option ℕ
  pub request_body_schema : Option Fields

-- `text or default`.
abbrev pub text_or : Option Text → Text → Text
text_or text' default = if filled text' then text_of text' else default

-- `json.dumps(schema) if schema else None`.
abbrev pub dump_filled : (Fields → Text) → Option Fields → Option Text
dump_filled dumps none = none
dump_filled dumps (some end) = none
dump_filled dumps (some (field k v rest)) = some (dumps (field k v rest))

-- `if value is not None: field = value`.
abbrev pub or_kept {ℓ} : {A : Type ℓ} → Option A → A → A
or_kept none old = old
or_kept (some new_value) old = new_value

-- An optional column keeps its value likewise.
abbrev pub or_kept_option {ℓ} : {A : Type ℓ} → Option A → Option A → Option A
or_kept_option none old = old
or_kept_option (some new_value) old = some new_value

abbrev pub map_dumps : (Fields → Text) → Option Fields → Option Text
map_dumps dumps none = none
map_dumps dumps (some schema) = some (dumps schema)

-- The row of the same primary key is written, or goes.
abbrev pub write_endpoint : Endpoint → List Endpoint → List Endpoint
write_endpoint x [] = []
write_endpoint x (y ∷ ys) =
    let rest = write_endpoint x ys in if y.id == x.id then x ∷ ys else y ∷ rest

abbrev pub without_endpoint : ℕ → List Endpoint → List Endpoint
without_endpoint id [] = []
without_endpoint id (y ∷ ys) =
    let rest = without_endpoint id ys in if y.id == id then ys else y ∷ rest

-- Whether a row refers to a route of an endpoint.
abbrev pub has_attempt : ℕ → Db → Bool
has_attempt ep_id db =
    let gone = keep (λ (x : Route). x.endpoint_id == ep_id) db.routes in
    any (λ (a : DeliveryAttempt). any (λ (x : Route). x.id == a.route_id) gone) db.attempts

-- Whether the deletion of an endpoint violates a foreign key of events or delivery attempts.
unfoldable pub is_used : ℕ → Db → Bool
is_used ep_id db = any (λ (e : Event). e.endpoint_id == ep_id) db.events || has_attempt ep_id db

module _ (tokens : Tokens) (at : Commit) (made : Generated) where
  -- `_parse_uuid`.
  abbrev pub parse_id : Text → Result ℕ
  parse_id value = or_raise (tokens.parse_uuid value) 400 "invalid id format"

  -- The endpoint of an id, if it is one of the member's workspace.
  unfoldable pub own_endpoint : WorkspaceMembership → ℕ → Action Db Endpoint
  own_endpoint membership ep_id = do
    found ← gets (endpoint_by_id ep_id)
    ep ← lift (or_raise found 404 "endpoint not found")
    lift (raise_if (not (ep.workspace_id == membership.workspace_id)) 404 "endpoint not found")
    pure ep

  unfoldable pub create_endpoint_as : WorkspaceMembership → EndpointCreate → Action Db Endpoint
  create_endpoint_as membership body db =
      let ep : Endpoint = record {
        id = at.new_id;
        workspace_id = membership.workspace_id;
        name = body.name;
        hmac_secret = text_or body.hmac_secret made.secret;
        is_active = true;
        rate_limit_rps = body.rate_limit_rps;
        ip_allowlist = none;
        request_body_schema = dump_filled made.dumps body.request_body_schema;
        created_at = at.now;
      } in
      commit at ep (record db { endpoints = db.endpoints ++ ep ∷ [] }) db

  unfoldable pub update_endpoint_as :
      WorkspaceMembership → Text → EndpointUpdate → Action Db Endpoint
  update_endpoint_as membership endpoint_id body = do
    ep_id ← lift (parse_id endpoint_id)
    ep ← own_endpoint membership ep_id
    let ep' : Endpoint = record ep {
      name = or_kept body.name ep.name;
      is_active = or_kept body.is_active ep.is_active;
      rate_limit_rps = or_kept_option body.rate_limit_rps ep.rate_limit_rps;
      request_body_schema =
          or_kept_option (map_dumps made.dumps body.request_body_schema) ep.request_body_schema;
    }
    λ db. commit at ep' (record db { endpoints = write_endpoint ep' db.endpoints }) db

  unfoldable pub rotate_secret_as : WorkspaceMembership → Text → Action Db Text
  rotate_secret_as membership endpoint_id = do
    ep_id ← lift (parse_id endpoint_id)
    ep ← own_endpoint membership ep_id
    λ db.
        commit at made.secret
          (record db {
            endpoints = write_endpoint (record ep { hmac_secret = made.secret }) db.endpoints;
          })
          db

  -- The routes go with their endpoint; rows that refer to one of them, or to the endpoint, stop the
  -- deletion.
  unfoldable pub delete_endpoint_as : WorkspaceMembership → Text → Action Db Unit
  delete_endpoint_as membership endpoint_id = do
    ep_id ← lift (parse_id endpoint_id)
    _ ← own_endpoint membership ep_id
    λ db.
        if is_used ep_id db
        then (http_error 500 "IntegrityError", db)
        else commit at tt
            (record db {
              endpoints = without_endpoint ep_id db.endpoints;
              routes = keep (λ (x : Route). not (x.endpoint_id == ep_id)) db.routes;
            })
            db
