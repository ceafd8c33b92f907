-- ===== src/Endpoints/Bystanders.antt =====
-- The endpoints of other workspaces, and their routes.
use webhook_relay_service.UrlSecurity.{Net}
use webhook_relay_service.Rbac.{Tokens}
use webhook_relay_service.Prelude.{
  Bool-cases, List, Option-cases, arith, false, find, find-holds, inl, inr, keep, some, sym, true,
  ℕ, ◌==◌, ◌∙◌, ◌≡◌,
}
use webhook_relay_service.Model.Settings.{Settings}
use webhook_relay_service.Model.Rows.{WorkspaceMembership}
use webhook_relay_service.Model.Db.{Db, endpoint_by_id, route_by_id}
use webhook_relay_service.Endpoints.Routes.{own_route, write_route}
use webhook_relay_service.Endpoints.Lookups.{
  find-write_endpoint, routes_of, routes_of-write_route, true-false,
}
use webhook_relay_service.Endpoints.{Generated, own_endpoint, write_endpoint, Route, Endpoint}
use mathlib.Core.Path.{subst}
use webhook_relay_service.Workspaces.{commit, Commit}
use webhook_relay_service.Http.{ok}

-- An endpoint of another workspace is stored, with these routes.
pub record IsBystander (membership : WorkspaceMembership) (id : ℕ) (ep : Endpoint)
    (rows : List Route) (db : Db) : Type 0 where
  pub stored : endpoint_by_id id db ≡ some ep
  pub elsewhere : (ep.workspace_id == membership.workspace_id) ≡ false
  pub its_routes : keep (λ (x : Route). x.endpoint_id == id) db.routes ≡ rows

module _ (tokens : Tokens) (net : Net) (settings : Settings) (at : Commit) (made : Generated)
    (membership : WorkspaceMembership) (db : Db) where
  own_endpoint-found :
      (ep_id : ℕ) (ep : Endpoint)
      → own_endpoint tokens at made membership ep_id db ≡ (ok ep, db)
      → (endpoint_by_id ep_id db ≡ some ep) × ((ep.workspace_id == membership.workspace_id) ≡ true)
  unfolding own_endpoint
  own_endpoint-found ep_id ep h = ground arith

  own_route-found :
      (r_id : ℕ) (row : Route)
      → own_route tokens net settings at made membership r_id db ≡ (ok row, db)
      → route_by_id r_id db ≡ some row
      → (ep : Endpoint) × (endpoint_by_id row.endpoint_id db ≡ some ep)
        × ((ep.workspace_id == membership.workspace_id) ≡ true)
  unfolding own_route
  own_route-found r_id row h found = elim (Option-cases (endpoint_by_id row.endpoint_id db)) [
    | inl absent ↦ absurd (ground (arith, found, absent, h))
    | inr (ep, found_ep) ↦ (ep, found_ep, ground (arith, found, found_ep, h))
  ]

  different :
      (id ep_id : ℕ) (ep own : Endpoint) (rows : List Route)
      → IsBystander membership id ep rows db
      → endpoint_by_id ep_id db ≡ some own
      → (own.workspace_id == membership.workspace_id) ≡ true
      → (ep_id == id) ≡ false
  different id ep_id ep own rows by found inside = elim (Bool-cases (ep_id == id)) [
    | inl same ↦
        (let e : ep_id ≡ id = ground (arith, same) in
          let here : endpoint_by_id id db ≡ some own =
            subst (λ n. endpoint_by_id n db ≡ some own) e found in
          let eps : some own ≡ some ep = sym here ∙ by.stored in
          let one : own ≡ ep = cc in
          let clash : (ep.workspace_id == membership.workspace_id) ≡ true =
            subst (λ (z : Endpoint). (z.workspace_id == membership.workspace_id) ≡ true) one
              inside in
          absurd (true-false (sym clash ∙ by.elsewhere)))
    | inr differs ↦ differs
  ]

  module _ (id : ℕ) (ep : Endpoint) (rows : List Route)
      (by : IsBystander membership id ep rows db) where
    pub commit-IsBystander :
        {A : Type 0} (value : A) (db' : Db)
        → IsBystander membership id ep rows db'
        → IsBystander membership id ep rows (commit at value db' db).1
    unfolding commit
    commit-IsBystander value db' by' = elim (Bool-cases at.commits) [
      | inl done ↦ rw done by'
      | inr lost ↦ rw lost by
    ]

    pub changed-IsBystander :
        {A : Type 0} (value : A) (x : Endpoint)
        → (x.id == id) ≡ false
        → IsBystander membership id ep rows
            (commit at value (record db { endpoints = write_endpoint x db.endpoints }) db).1
    unfolding endpoint_by_id
    changed-IsBystander value x differs = commit-IsBystander value _ (record {
      stored = find-write_endpoint id x ep db.endpoints differs by.stored;
      elsewhere = by.elsewhere;
      its_routes = by.its_routes;
    })

    pub with_routes :
        {A : Type 0} (value : A) (routes' : List Route)
        → routes_of id routes' ≡ routes_of id db.routes
        → IsBystander membership id ep rows (commit at value (record db { routes = routes' }) db).1
    unfolding endpoint_by_id
    with_routes value routes' same =
        commit-IsBystander value _ (record {
          stored = by.stored;
          elsewhere = by.elsewhere;
          its_routes = same ∙ by.its_routes;
        })

    own_id : (ep_id : ℕ) (own : Endpoint) → endpoint_by_id ep_id db ≡ some own → own.id ≡ ep_id
    unfolding endpoint_by_id
    own_id ep_id own found =
        ground (arith, find-holds (λ (e : Endpoint). e.id == ep_id) db.endpoints own found)

    pub id_differs :
        (ep_id : ℕ) (own : Endpoint)
        → own_endpoint tokens at made membership ep_id db ≡ (ok own, db)
        → (ep_id == id) ≡ false
    id_differs ep_id own h =
        let (found, inside) = own_endpoint-found ep_id own h in
        different id ep_id ep own rows by found inside

    pub own_differs :
        (ep_id : ℕ) (own : Endpoint)
        → own_endpoint tokens at made membership ep_id db ≡ (ok own, db)
        → (own.id == id) ≡ false
    own_differs ep_id own h =
        subst (λ n. (n == id) ≡ false) (sym (own_id ep_id own (own_endpoint-found ep_id own h).0))
          (id_differs ep_id own h)

    pub route_differs :
        (r_id : ℕ) (row : Route)
        → own_route tokens net settings at made membership r_id db ≡ (ok row, db)
        → route_by_id r_id db ≡ some row
        → (row.endpoint_id == id) ≡ false
    route_differs r_id row h found =
        let (own, found_ep, inside) = own_route-found r_id row h found in
        different id row.endpoint_id ep own rows by found_ep inside

    pub written_same :
        (r_id : ℕ) (row row' : Route)
        → (row'.id ≡ row.id) × (row'.endpoint_id ≡ row.endpoint_id)
        → own_route tokens net settings at made membership r_id db ≡ (ok row, db)
        → route_by_id r_id db ≡ some row
        → routes_of id (write_route row' db.routes) ≡ routes_of id db.routes
    unfolding route_by_id
    written_same r_id row row' (ids, eps) own found =
        let row_id : (row.id == r_id) ≡ true =
          find-holds (λ (x : Route). x.id == r_id) db.routes row found in
        let key : r_id ≡ row'.id = ground (arith, row_id, ids) in
        routes_of-write_route id row row' db.routes
          (subst (λ n. find (λ (x : Route). x.id == n) db.routes ≡ some row) key found)
          (route_differs r_id row own found)
          (subst (λ n. (n == id) ≡ false) (sym eps) (route_differs r_id row own found))
