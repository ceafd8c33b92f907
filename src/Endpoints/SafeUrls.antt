-- ===== src/Endpoints/SafeUrls.antt =====
-- Every stored route has a deliverable URL, whatever requests are made.
use webhook_relay_service.Workspaces.{Commit, commit}
use webhook_relay_service.UrlSecurity.Accepted.{IsDeliverable, validate_cases, validate_iff}
use webhook_relay_service.UrlSecurity.{Net}
use webhook_relay_service.Rbac.{Tokens}
use webhook_relay_service.Prelude.{
  All, All-append, Bool, Bool-cases, List, Option-cases, Text, [], any, arith, find, inl, inr, keep,
  some, ℕ, ◌==◌, ◌∷◌, ◌≡◌,
}
use webhook_relay_service.Model.Settings.{Settings}
use webhook_relay_service.Model.Rows.{DeliveryAttempt, Route, WorkspaceMembership}
use webhook_relay_service.Http.{ok}
use webhook_relay_service.Model.Db.{Db, route_by_id}
use webhook_relay_service.Endpoints.Routes.{
  RouteCreate, add_route_as, delete_route_as, new_route, update_route_as, without_route,
  write_route,
}
use webhook_relay_service.Endpoints.Patches.{
  Patch, RouteUpdate, check_url, patch, patched, set_null, set_to, unset,
}
use webhook_relay_service.Endpoints.Guards.{Result-cases, own_endpoint-cases, own_route-cases}
use webhook_relay_service.Endpoints.{Generated, delete_endpoint_as, is_used}
use mathlib.Core.Path.{subst}

-- A change of the routes, in a workspace that the caller may change.
pub data RouteRequest : Type 0 where
  add : Text → RouteCreate → RouteRequest
  update : Text → RouteUpdate → RouteRequest
  delete delete_endpoint : Text → RouteRequest

module _ (tokens : Tokens) (net : Net) (settings : Settings) (at : Commit) (made : Generated)
    (membership : WorkspaceMembership) where
  -- The database after a request, whether it succeeded or raised.
  abbrev pub after : RouteRequest → Db → Db
  after (add endpoint_id body) db =
      (add_route_as tokens net settings at made membership endpoint_id body db).1
  after (update route_id body) db =
      (update_route_as tokens net settings at made membership route_id body db).1
  after (delete route_id) db =
      (delete_route_as tokens net settings at made membership route_id db).1
  after (delete_endpoint endpoint_id) db =
      (delete_endpoint_as tokens at made membership endpoint_id db).1

  abbrev pub IsSafeRoute : Route → Type 0
  IsSafeRoute x = IsDeliverable net settings x.url

  -- Every stored route has a deliverable URL.
  pub record HasSafeRoutes (db : Db) : Type 0 where
    pub all_safe : All IsSafeRoute db.routes

  found-IsSafeRoute :
      (p : Route → Bool) (xs : List Route) (x : Route)
      → find p xs ≡ some x
      → All IsSafeRoute xs
      → IsSafeRoute x
  found-IsSafeRoute p [] x h safe = cc
  found-IsSafeRoute p (y ∷ ys) x h safe = elim (Bool-cases (p y)) [
    | inl hit ↦ (let e : y ≡ x = ground (arith, hit, h) in subst IsSafeRoute e safe.0)
    | inr miss ↦ found-IsSafeRoute p ys x (rw miss at h) safe.1
  ]

  write-HasSafeRoutes :
      (x : Route) (xs : List Route)
      → IsSafeRoute x
      → All IsSafeRoute xs
      → All IsSafeRoute (write_route x xs)
  write-HasSafeRoutes x [] hx h = tt
  write-HasSafeRoutes x (y ∷ ys) hx h = elim (Bool-cases (y.id == x.id)) [
    | inl hit ↦ rw hit (hx, h.1)
    | inr miss ↦ rw miss (h.0, write-HasSafeRoutes x ys hx h.1)
  ]

  without-HasSafeRoutes :
      (id : ℕ) (xs : List Route) → All IsSafeRoute xs → All IsSafeRoute (without_route id xs)
  without-HasSafeRoutes id [] h = tt
  without-HasSafeRoutes id (y ∷ ys) h = elim (Bool-cases (y.id == id)) [
    | inl hit ↦ rw hit h.1
    | inr miss ↦ rw miss (h.0, without-HasSafeRoutes id ys h.1)
  ]

  keep-HasSafeRoutes :
      (p : Route → Bool) (xs : List Route) → All IsSafeRoute xs → All IsSafeRoute (keep p xs)
  keep-HasSafeRoutes p [] h = tt
  keep-HasSafeRoutes p (y ∷ ys) h = elim (Bool-cases (p y)) [
    | inl hit ↦ rw hit (h.0, keep-HasSafeRoutes p ys h.1)
    | inr miss ↦ rw miss (keep-HasSafeRoutes p ys h.1)
  ]

  commit-HasSafeRoutes :
      {A : Type 0} (value : A) (db' db : Db)
      → HasSafeRoutes db
      → HasSafeRoutes db'
      → HasSafeRoutes (commit at value db' db).1
  unfolding commit
  commit-HasSafeRoutes value db' db h h' = elim (Bool-cases at.commits) [
    | inl done ↦ simp done h'
    | inr lost ↦ simp lost h
  ]

  patch-IsDeliverable :
      (change : Patch Text) (old u : Text)
      → check_url net settings change ≡ ok tt
      → patch change old ≡ some u
      → IsDeliverable net settings old
      → IsDeliverable net settings u
  unfolding check_url
  patch-IsDeliverable unset old u checked e h =
      subst (IsDeliverable net settings) (ground (arith, e)) h
  patch-IsDeliverable set_null old u checked e h = cc
  patch-IsDeliverable (set_to v) old u checked e h = elim (validate_cases net settings v) [
    | inl valid ↦
        subst (IsDeliverable net settings) (ground (arith, e))
          ((validate_iff net settings v).0 valid)
    | inr (x, refused, code) ↦ absurd (ground (arith, checked, refused))
  ]

  patched-url :
      (body : RouteUpdate) (row row' : Route)
      → patched body row ≡ ok row'
      → patch body.url row.url ≡ some row'.url
  unfolding patched
  patched-url body row row' h = ground (arith, h)

  add-HasSafeRoutes :
      (endpoint_id : Text) (body : RouteCreate) (db : Db)
      → HasSafeRoutes db
      → HasSafeRoutes (add_route_as tokens net settings at made membership endpoint_id body db).1
  unfolding add_route_as
  add-HasSafeRoutes endpoint_id body db h = elim (Option-cases (tokens.parse_uuid endpoint_id)) [
    | inl bad ↦ simp bad h
    | inr (ep_id, parsed) ↦ elim (validate_cases net settings body.url) [
      | inr (e, refused, code) ↦ simp (parsed, refused) h
      | inl valid ↦ elim (own_endpoint-cases tokens net settings at made membership ep_id db) [
        | inl (e, other_place) ↦ simp (parsed, valid, other_place) h
        | inr (ep, own) ↦
            simp (parsed, valid, own)
              (commit-HasSafeRoutes _ _ db h (record {
                all_safe =
                    All-append IsSafeRoute db.routes
                      (new_route tokens net settings at made ep.id body ∷ []) h.all_safe
                      ((validate_iff net settings body.url).0 valid, tt);
              }))
      ]
    ]
  ]

  update-HasSafeRoutes :
      (route_id : Text) (body : RouteUpdate) (db : Db)
      → HasSafeRoutes db
      → HasSafeRoutes (update_route_as tokens net settings at made membership route_id body db).1
  unfolding update_route_as route_by_id
  update-HasSafeRoutes route_id body db h = elim (Option-cases (tokens.parse_uuid route_id)) [
    | inl bad ↦ simp bad h
    | inr (r_id, parsed) ↦ elim (own_route-cases tokens net settings at made membership r_id db) [
      | inl (e, other_place) ↦ simp (parsed, other_place) h
      | inr (row, own, found) ↦ elim (Result-cases (check_url net settings body.url)) [
        | inl (e, refused) ↦ simp (parsed, own, refused) h
        | inr (_, checked) ↦ elim (Result-cases (patched body row)) [
          | inl (e, null_value) ↦ simp (parsed, own, checked, null_value) h
          | inr (row', done) ↦
              simp (parsed, own, checked, done)
                (commit-HasSafeRoutes _ _ db h (record {
                  all_safe =
                      write-HasSafeRoutes row' db.routes
                        (patch-IsDeliverable body.url row.url row'.url checked
                          (patched-url body row row' done)
                          (found-IsSafeRoute _ db.routes row found h.all_safe))
                        h.all_safe;
                }))
        ]
      ]
    ]
  ]

  delete-HasSafeRoutes :
      (route_id : Text) (db : Db)
      → HasSafeRoutes db
      → HasSafeRoutes (delete_route_as tokens net settings at made membership route_id db).1
  unfolding delete_route_as
  delete-HasSafeRoutes route_id db h = elim (Option-cases (tokens.parse_uuid route_id)) [
    | inl bad ↦ simp bad h
    | inr (r_id, parsed) ↦ elim (own_route-cases tokens net settings at made membership r_id db) [
      | inl (e, other_place) ↦ simp (parsed, other_place) h
      | inr (row, own, found) ↦
          elim (Bool-cases (any (λ (a : DeliveryAttempt). a.route_id == r_id) db.attempts)) [
            | inl used ↦ simp (parsed, own, used) h
            | inr unused ↦
                simp (parsed, own, unused)
                  (commit-HasSafeRoutes _ _ db h
                    (record { all_safe = without-HasSafeRoutes r_id db.routes h.all_safe }))
          ]
    ]
  ]

  delete_endpoint-HasSafeRoutes :
      (endpoint_id : Text) (db : Db)
      → HasSafeRoutes db
      → HasSafeRoutes (delete_endpoint_as tokens at made membership endpoint_id db).1
  unfolding delete_endpoint_as
  delete_endpoint-HasSafeRoutes endpoint_id db h =
      elim (Option-cases (tokens.parse_uuid endpoint_id)) [
        | inl bad ↦ simp bad h
        | inr (ep_id, parsed) ↦
            elim (own_endpoint-cases tokens net settings at made membership ep_id db) [
              | inl (e, other_place) ↦ simp (parsed, other_place) h
              | inr (ep, own) ↦ elim (Bool-cases (is_used ep_id db)) [
                | inl used ↦ simp (parsed, own, used) h
                | inr unused ↦
                    simp (parsed, own, unused)
                      (commit-HasSafeRoutes _ _ db h
                        (record { all_safe = keep-HasSafeRoutes _ db.routes h.all_safe }))
              ]
            ]
      ]

  -- Whatever is asked of the routes and whether it succeeds, if every stored route has a URL that is
  -- deliverable then so has every route after it: one that is added or changed is checked first.
  pub after-HasSafeRoutes :
      (q : RouteRequest) (db : Db) → HasSafeRoutes db → HasSafeRoutes (after q db)
  after-HasSafeRoutes (add endpoint_id body) db h = add-HasSafeRoutes endpoint_id body db h
  after-HasSafeRoutes (update route_id body) db h = update-HasSafeRoutes route_id body db h
  after-HasSafeRoutes (delete route_id) db h = delete-HasSafeRoutes route_id db h
  after-HasSafeRoutes (delete_endpoint endpoint_id) db h =
      delete_endpoint-HasSafeRoutes endpoint_id db h
