-- ===== src/Endpoints/Lookups.antt =====
-- Looking up endpoints and routes after a row was added, written or removed.
use webhook_relay_service.Prelude.{
  Bool, Bool-cases, List, [], arith, false, find, inl, inr, keep, not, refl, some, sym, true, ℕ,
  ◌++◌, ◌==◌, ◌∷◌, ◌≡◌, ◌≢◌,
}
use webhook_relay_service.Endpoints.Routes.{without_route, write_route}
use webhook_relay_service.Endpoints.Patches.{RouteUpdate, patched}
use webhook_relay_service.Endpoints.{without_endpoint, write_endpoint, Route, Endpoint}
use mathlib.Core.Path.{subst}
use webhook_relay_service.Http.{ok}

pub find-more :
    {A : Type 0} (p : A → Bool) (xs ys : List A) (x : A)
    → find p xs ≡ some x
    → find p (xs ++ ys) ≡ some x
find-more p [] ys x h = absurd cc
find-more p (y ∷ xs) ys x h = elim (Bool-cases (p y)) [
  | inl hit ↦ rw hit (rw hit at h)
  | inr miss ↦ rw miss (find-more p xs ys x (rw miss at h))
]

pub find-write_endpoint :
    (id : ℕ) (x ep : Endpoint) (xs : List Endpoint)
    → (x.id == id) ≡ false
    → find (λ (e : Endpoint). e.id == id) xs ≡ some ep
    → find (λ (e : Endpoint). e.id == id) (write_endpoint x xs) ≡ some ep
find-write_endpoint id x ep [] differs h = h
find-write_endpoint id x ep (y ∷ ys) differs h =
    ground (arith, differs, h, find-write_endpoint id x ep ys differs)

pub find-without_endpoint :
    (id gone : ℕ) (ep : Endpoint) (xs : List Endpoint)
    → (gone == id) ≡ false
    → find (λ (e : Endpoint). e.id == id) xs ≡ some ep
    → find (λ (e : Endpoint). e.id == id) (without_endpoint gone xs) ≡ some ep
find-without_endpoint id gone ep [] differs h = h
find-without_endpoint id gone ep (y ∷ ys) differs h =
    ground (arith, differs, h, find-without_endpoint id gone ep ys differs)

abbrev pub routes_of : ℕ → List Route → List Route
routes_of id rows = keep (λ (x : Route). x.endpoint_id == id) rows

pub routes_of-snoc :
    (id : ℕ) (x : Route) (xs : List Route)
    → (x.endpoint_id == id) ≡ false
    → routes_of id (xs ++ x ∷ []) ≡ routes_of id xs
routes_of-snoc id x [] differs = rw differs refl
routes_of-snoc id x (y ∷ ys) differs = ground (arith, routes_of-snoc id x ys differs)

pub routes_of-write_route :
    (id : ℕ) (old x : Route) (xs : List Route)
    → find (λ (y : Route). y.id == x.id) xs ≡ some old
    → (old.endpoint_id == id) ≡ false
    → (x.endpoint_id == id) ≡ false
    → routes_of id (write_route x xs) ≡ routes_of id xs
routes_of-write_route id old x [] h was will = refl
routes_of-write_route id old x (y ∷ ys) h was will = elim (Bool-cases (y.id == x.id)) [
  | inl hit ↦
      (let same : y ≡ old = ground (arith, hit, h) in
        let y_was : (y.endpoint_id == id) ≡ false =
          subst (λ (z : Route). (z.endpoint_id == id) ≡ false) (sym same) was in
        rw hit (rw (will, y_was) refl))
  | inr miss ↦
      (let ih = routes_of-write_route id old x ys (rw miss at h) was will in
        ground (arith, miss, ih))
]

pub routes_of-without_route :
    (id gone : ℕ) (old : Route) (xs : List Route)
    → find (λ (y : Route). y.id == gone) xs ≡ some old
    → (old.endpoint_id == id) ≡ false
    → routes_of id (without_route gone xs) ≡ routes_of id xs
routes_of-without_route id gone old [] h was = refl
routes_of-without_route id gone old (y ∷ ys) h was = elim (Bool-cases (y.id == gone)) [
  | inl hit ↦
      (let same : y ≡ old = ground (arith, hit, h) in
        let y_was : (y.endpoint_id == id) ≡ false =
          subst (λ (z : Route). (z.endpoint_id == id) ≡ false) (sym same) was in
        rw hit (rw y_was refl))
  | inr miss ↦
      (let ih = routes_of-without_route id gone old ys (rw miss at h) was in
        ground (arith, miss, ih))
]

pub routes_of-keep :
    (id gone : ℕ) (xs : List Route)
    → (gone == id) ≡ false
    → routes_of id (keep (λ (x : Route). not (x.endpoint_id == gone)) xs) ≡ routes_of id xs
routes_of-keep id gone [] differs = refl
routes_of-keep id gone (y ∷ ys) differs = ground (arith, differs, routes_of-keep id gone ys differs)

pub true-false : true ≢ false
true-false h = cc

pub patched-same :
    (body : RouteUpdate) (row row' : Route)
    → patched body row ≡ ok row'
    → (row'.id ≡ row.id) × (row'.endpoint_id ≡ row.endpoint_id)
unfolding patched
patched-same body row row' h = (ground (arith, h), ground (arith, h))
