-- ===== src/Events/Listing.antt =====
-- app/api/events.py: the handlers that list the events of a workspace and that show one. A page of
-- a negative limit, which the database refuses, is left out.
use webhook_relay_service.Workspaces.{Commit}
use webhook_relay_service.UrlSecurity.{text_of}
use webhook_relay_service.Rbac.{Tokens}
use webhook_relay_service.Prelude.{
  Bool, List, Option, Text, [], any, drop, if◌then◌else◌, keep, leb, ltb, map, none, not, some,
  take, true, ℕ, ◌&&◌, ◌==◌, ◌∷◌,
}
use webhook_relay_service.Model.Rows.{WorkspaceMembership, DeliveryAttempt, Endpoint}
use webhook_relay_service.Model.Db.{Db}
use webhook_relay_service.Http.Action.{◌>>=◌, ◌>>◌, Action, gets, lift, pure}
use webhook_relay_service.Http.{Result, filled, or_raise, raise_if}
use webhook_relay_service.Events.{own_event, parse_event_id, Event}

pub record Page : Type 0 where
  pub limit : ℕ
  pub offset : ℕ

-- FastAPI's check of `Query(le=200)`.
abbrev pub check_page : Page → Result (Unit {0})
check_page page = raise_if (ltb 200 page.limit) 422 "limit must be at most 200"

abbrev pub page_of : {A : Type 0} → Page → List A → List A
page_of page rows = take page.limit (drop page.offset rows)

-- `_list_workspace_endpoint_ids`.
unfoldable pub workspace_endpoint_ids : ℕ → Db → List ℕ
workspace_endpoint_ids ws_id db =
    map (λ (ep : Endpoint). ep.id) (keep (λ (ep : Endpoint). ep.workspace_id == ws_id) db.endpoints)

-- `Event.endpoint_id.in_(ids)`.
abbrev pub is_among : List ℕ → ℕ → Bool
is_among ids id = any (λ x. x == id) ids

-- `order_by(Event.received_at.desc())`.
abbrev pub insert_latest : Event → List Event → List Event
insert_latest x [] = x ∷ []
insert_latest x (y ∷ ys) =
    let rest = insert_latest x ys in
    if leb y.received_at x.received_at then x ∷ y ∷ ys else y ∷ rest

unfoldable pub sort_latest : List Event → List Event
sort_latest [] = []
sort_latest (x ∷ xs) = insert_latest x (sort_latest xs)

-- `order_by(DeliveryAttempt.attempt_number)`.
abbrev pub insert_attempt : DeliveryAttempt → List DeliveryAttempt → List DeliveryAttempt
insert_attempt x [] = x ∷ []
insert_attempt x (y ∷ ys) =
    let rest = insert_attempt x ys in
    if leb x.attempt_number y.attempt_number then x ∷ y ∷ ys else y ∷ rest

unfoldable pub sort_attempts : List DeliveryAttempt → List DeliveryAttempt
sort_attempts [] = []
sort_attempts (x ∷ xs) = insert_attempt x (sort_attempts xs)

-- The events of a chosen endpoint, or all of them.
abbrev pub is_chosen : Option ℕ → Event → Bool
is_chosen none event = true
is_chosen (some ep_id) event = event.endpoint_id == ep_id

module _ (tokens : Tokens) (at : Commit) where
  abbrev pub choose_endpoint : List ℕ → Option Text → Action Db (Option ℕ)
  choose_endpoint ids endpoint_id =
      if filled endpoint_id
      then (lift
            (or_raise (tokens.parse_uuid (text_of endpoint_id)) 400 "invalid endpoint_id format")
          >>= λ ep_id.
              lift (raise_if (not (is_among ids ep_id)) 404 "endpoint not found in this workspace")
              >> pure (some ep_id))
      else pure none

  -- With no endpoint there is nothing to look for.
  abbrev pub list_among : List ℕ → Option Text → Page → Action Db (List Event)
  list_among [] endpoint_id page = pure []
  list_among (id ∷ ids) endpoint_id page = do
    chosen ← choose_endpoint (id ∷ ids) endpoint_id
    gets (λ db. page_of page (
        sort_latest (
          keep (λ (event : Event). is_among (id ∷ ids) event.endpoint_id && is_chosen chosen event)
            db.events)))

  unfoldable pub list_events_as : WorkspaceMembership → Option Text → Page → Action Db (List Event)
  list_events_as membership endpoint_id page = do
    lift (check_page page)
    ids ← gets (workspace_endpoint_ids membership.workspace_id)
    list_among ids endpoint_id page

  unfoldable pub get_event_as : WorkspaceMembership → Text → Action Db Event
  get_event_as membership event_id = do
    ev_id ← lift (parse_event_id tokens at event_id)
    own_event tokens at membership ev_id

  unfoldable pub get_event_attempts_as :
      WorkspaceMembership → Text → Action Db (List DeliveryAttempt)
  get_event_attempts_as membership event_id = do
    ev_id ← lift (parse_event_id tokens at event_id)
    own_event tokens at membership ev_id
    gets (λ db. sort_attempts (keep (λ (a : DeliveryAttempt). a.event_id == ev_id) db.attempts))
