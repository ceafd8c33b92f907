-- ===== src/Endpoints/Untouched.antt =====
-- What the requests of a workspace leave of the endpoints of the others.
use webhook_relay_service.Workspaces.{Commit}
use webhook_relay_service.UrlSecurity.{Net, validate_delivery_url}
use webhook_relay_service.Rbac.{Tokens}
use webhook_relay_service.Prelude.{
  Bool-cases, List, Option-cases, Text, any, inl, inr, ℕ, ◌==◌, ◌∙◌,
}
use webhook_relay_service.Model.Settings.{Settings}
use webhook_relay_service.Model.Rows.{Route, WorkspaceMembership}
use webhook_relay_service.Model.Db.{Db, endpoint_by_id, route_by_id}
use webhook_relay_service.Endpoints.Routes.{
  RouteCreate, add_route_as, delete_route_as, new_route, update_route_as,
}
use webhook_relay_service.Endpoints.Patches.{RouteUpdate, check_url, patched}
use webhook_relay_service.Endpoints.Lookups.{
  find-more, find-without_endpoint, patched-same, routes_of-keep, routes_of-snoc,
  routes_of-without_route,
}
use webhook_relay_service.Endpoints.Guards.{Result-cases, own_endpoint-cases, own_route-cases}
use webhook_relay_service.Endpoints.Bystanders.{
  IsBystander, changed-IsBystander, commit-IsBystander, id_differs, own_differs, route_differs,
  with_routes, written_same,
}
use webhook_relay_service.Endpoints.{
  EndpointCreate, EndpointUpdate, Generated, create_endpoint_as, delete_endpoint_as, is_used,
  rotate_secret_as, update_endpoint_as, Endpoint, DeliveryAttempt,
}

module _ (tokens : Tokens) (net : Net) (settings : Settings) (at : Commit) (made : Generated)
    (membership : WorkspaceMembership) (db : Db) (id : ℕ) (ep : Endpoint) (rows : List Route)
    (by : IsBystander membership id ep rows db) where
  pub create-IsBystander :
      (body : EndpointCreate)
      → IsBystander membership id ep rows (create_endpoint_as tokens at made membership body db).1
  unfolding create_endpoint_as endpoint_by_id
  create-IsBystander body =
      commit-IsBystander tokens net settings at made membership db id ep rows by _ _ (record {
        stored = find-more (λ (e : Endpoint). e.id == id) db.endpoints _ ep by.stored;
        elsewhere = by.elsewhere;
        its_routes = by.its_routes;
      })

  pub update-IsBystander :
      (endpoint_id : Text) (body : EndpointUpdate)
      → IsBystander membership id ep rows
          (update_endpoint_as tokens at made membership endpoint_id body db).1
  unfolding update_endpoint_as
  update-IsBystander endpoint_id body = elim (Option-cases (tokens.parse_uuid endpoint_id)) [
    | inl bad ↦ simp bad by
    | inr (ep_id, parsed) ↦
        elim (own_endpoint-cases tokens net settings at made membership ep_id db) [
          | inl (e, other_place) ↦ simp (parsed, other_place) by
          | inr (own, found) ↦
              simp (parsed, found)
                (changed-IsBystander tokens net settings at made membership db id ep rows by _ _ (
                  own_differs tokens net settings at made membership db id ep rows by ep_id own
                    found))
        ]
  ]

  pub rotate-IsBystander :
      (endpoint_id : Text)
      → IsBystander membership id ep rows
          (rotate_secret_as tokens at made membership endpoint_id db).1
  unfolding rotate_secret_as
  rotate-IsBystander endpoint_id = elim (Option-cases (tokens.parse_uuid endpoint_id)) [
    | inl bad ↦ simp bad by
    | inr (ep_id, parsed) ↦
        elim (own_endpoint-cases tokens net settings at made membership ep_id db) [
          | inl (e, other_place) ↦ simp (parsed, other_place) by
          | inr (own, found) ↦
              simp (parsed, found)
                (changed-IsBystander tokens net settings at made membership db id ep rows by _ _ (
                  own_differs tokens net settings at made membership db id ep rows by ep_id own
                    found))
        ]
  ]

  pub delete_endpoint-IsBystander :
      (endpoint_id : Text)
      → IsBystander membership id ep rows
          (delete_endpoint_as tokens at made membership endpoint_id db).1
  unfolding delete_endpoint_as endpoint_by_id
  delete_endpoint-IsBystander endpoint_id = elim (Option-cases (tokens.parse_uuid endpoint_id)) [
    | inl bad ↦ simp bad by
    | inr (ep_id, parsed) ↦
        elim (own_endpoint-cases tokens net settings at made membership ep_id db) [
          | inl (e, other_place) ↦ simp (parsed, other_place) by
          | inr (own, found) ↦ elim (Bool-cases (is_used ep_id db)) [
            | inl used ↦ simp (parsed, found, used) by
            | inr unused ↦
                (let differs =
                    id_differs tokens net settings at made membership db id ep rows by ep_id own
                      found in
                  simp (parsed, found, unused)
                    (commit-IsBystander tokens net settings at made membership db id ep rows by _ _
                      (record {
                        stored = find-without_endpoint id ep_id ep db.endpoints differs by.stored;
                        elsewhere = by.elsewhere;
                        its_routes = routes_of-keep id ep_id db.routes differs ∙ by.its_routes;
                      })))
          ]
        ]
  ]

  pub add_route-IsBystander :
      (endpoint_id : Text) (body : RouteCreate)
      → IsBystander membership id ep rows
          (add_route_as tokens net settings at made membership endpoint_id body db).1
  unfolding add_route_as
  add_route-IsBystander endpoint_id body = elim (Option-cases (tokens.parse_uuid endpoint_id)) [
    | inl bad ↦ simp bad by
    | inr (ep_id, parsed) ↦ elim (Result-cases (validate_delivery_url net settings body.url)) [
      | inl (e, refused) ↦ simp (parsed, refused) by
      | inr (_, valid) ↦ elim (own_endpoint-cases tokens net settings at made membership ep_id db) [
        | inl (e, other_place) ↦ simp (parsed, valid, other_place) by
        | inr (own, found) ↦
            simp (parsed, valid, found)
              (with_routes tokens net settings at made membership db id ep rows by _ _ (
                routes_of-snoc id (new_route tokens net settings at made own.id body) db.routes (
                  own_differs tokens net settings at made membership db id ep rows by ep_id own
                    found)))
      ]
    ]
  ]

  pub update_route-IsBystander :
      (route_id : Text) (body : RouteUpdate)
      → IsBystander membership id ep rows
          (update_route_as tokens net settings at made membership route_id body db).1
  unfolding update_route_as route_by_id
  update_route-IsBystander route_id body = elim (Option-cases (tokens.parse_uuid route_id)) [
    | inl bad ↦ simp bad by
    | inr (r_id, parsed) ↦ elim (own_route-cases tokens net settings at made membership r_id db) [
      | inl (e, other_place) ↦ simp (parsed, other_place) by
      | inr (row, own, found) ↦ elim (Result-cases (check_url net settings body.url)) [
        | inl (e, refused) ↦ simp (parsed, own, refused) by
        | inr (_, checked) ↦ elim (Result-cases (patched body row)) [
          | inl (e, null_value) ↦ simp (parsed, own, checked, null_value) by
          | inr (row', done) ↦
              simp (parsed, own, checked, done)
                (with_routes tokens net settings at made membership db id ep rows by _ _ (
                  written_same tokens net settings at made membership db id ep rows by r_id row row'
                    (patched-same body row row' done) own found))
        ]
      ]
    ]
  ]

  pub delete_route-IsBystander :
      (route_id : Text)
      → IsBystander membership id ep rows
          (delete_route_as tokens net settings at made membership route_id db).1
  unfolding delete_route_as route_by_id
  delete_route-IsBystander route_id = elim (Option-cases (tokens.parse_uuid route_id)) [
    | inl bad ↦ simp bad by
    | inr (r_id, parsed) ↦ elim (own_route-cases tokens net settings at made membership r_id db) [
      | inl (e, other_place) ↦ simp (parsed, other_place) by
      | inr (row, own, found) ↦
          elim (Bool-cases (any (λ (a : DeliveryAttempt). a.route_id == r_id) db.attempts)) [
            | inl used ↦ simp (parsed, own, used) by
            | inr unused ↦
                simp (parsed, own, unused)
                  (with_routes tokens net settings at made membership db id ep rows by _ _ (
                    routes_of-without_route id r_id row db.routes found (
                      route_differs tokens net settings at made membership db id ep rows by r_id row
                        own found)))
          ]
    ]
  ]
