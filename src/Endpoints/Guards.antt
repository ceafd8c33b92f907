-- ===== src/Endpoints/Guards.antt =====
-- How the guards of the handlers end: with an error, or with the row that was found.
use webhook_relay_service.Workspaces.{Commit}
use webhook_relay_service.UrlSecurity.{Net}
use webhook_relay_service.Rbac.{Tokens}
use webhook_relay_service.Prelude.{
  Bool-cases, Option-cases, inl, inr, refl, some, ℕ, ◌==◌, ◌≡◌, ◌⊎◌,
}
use webhook_relay_service.Model.Settings.{Settings}
use webhook_relay_service.Model.Rows.{Endpoint, Route, WorkspaceMembership}
use webhook_relay_service.Model.Db.{Db, endpoint_by_id, route_by_id}
use webhook_relay_service.Http.{HttpException, Result, raised, ok}
use webhook_relay_service.Endpoints.Routes.{own_route}
use webhook_relay_service.Endpoints.{Generated, own_endpoint}

abbrev endpoint_missing : HttpException
endpoint_missing = record { status_code = 404; detail = "endpoint not found" }

abbrev route_missing : HttpException
route_missing = record { status_code = 404; detail = "route not found" }

pub Result-cases :
    {A : Type 0} (r : Result A) → ((e : HttpException) × (r ≡ raised e)) ⊎ ((a : A) × (r ≡ ok a))
Result-cases (raised e) = inl (e, refl)
Result-cases (ok a) = inr (a, refl)

module _ (tokens : Tokens) (net : Net) (settings : Settings) (at : Commit) (made : Generated)
    (membership : WorkspaceMembership) where
  pub own_endpoint-cases :
      (ep_id : ℕ) (db : Db)
      → ((e : HttpException) × (own_endpoint tokens at made membership ep_id db ≡ (raised e, db)))
        ⊎ ((ep : Endpoint) × (own_endpoint tokens at made membership ep_id db ≡ (ok ep, db)))
  unfolding own_endpoint
  own_endpoint-cases ep_id db = elim (Option-cases (endpoint_by_id ep_id db)) [
    | inl absent ↦ inl (endpoint_missing, rw absent refl)
    | inr (ep, found) ↦ elim (Bool-cases (ep.workspace_id == membership.workspace_id)) [
      | inl same ↦ inr (ep, rw found (rw same refl))
      | inr differs ↦ inl (endpoint_missing, rw found (rw differs refl))
    ]
  ]

  pub own_route-cases :
      (r_id : ℕ) (db : Db)
      → ((e : HttpException) × (own_route tokens net settings at made membership r_id db
            ≡ (raised e, db)))
        ⊎ ((row : Route) × (own_route tokens net settings at made membership r_id db ≡ (ok row, db))
            × (route_by_id r_id db ≡ some row))
  unfolding own_route
  own_route-cases r_id db = elim (Option-cases (route_by_id r_id db)) [
    | inl absent ↦ inl (route_missing, rw absent refl)
    | inr (row, found) ↦ elim (Option-cases (endpoint_by_id row.endpoint_id db)) [
      | inl absent ↦ inl (route_missing, rw found (rw absent refl))
      | inr (ep, found_ep) ↦ elim (Bool-cases (ep.workspace_id == membership.workspace_id)) [
        | inl same ↦ inr (row, rw found (rw found_ep (rw same refl)), found)
        | inr differs ↦ inl (route_missing, rw found (rw found_ep (rw differs refl)))
      ]
    ]
  ]
