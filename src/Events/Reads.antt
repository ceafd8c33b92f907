-- ===== src/Events/Reads.antt =====
-- What the requests that read events can show.
use webhook_relay_service.Events.Belonging.{belongs, is_among-workspace_endpoint_ids}
use webhook_relay_service.Http.Leaves.{bind-eq-ok}
use webhook_relay_service.Events.Requests.{list_events}
use mathlib.Core.Path.{subst}
use webhook_relay_service.Workspaces.{Commit}
use webhook_relay_service.Rbac.{Tokens, require_workspace_role}
use webhook_relay_service.Prelude.{
  List, Text, [], inl, inr, ◌∷◌, ◌≡◌, ◌≤◌, All-imply, length, ℕ, suc, leb, Bool-cases, All, true,
  arith, take, All-take, zero, drop, ◌&&◌, length-take, All-keep, Option, ltb, All-drop, Bool, keep,
  codes, false, sym, ◌∙◌,
}
use webhook_relay_service.Model.Rows.{Event, User, WorkspaceMembership}
use webhook_relay_service.Model.Db.{Db}
use webhook_relay_service.Http.Action.{lift}
use webhook_relay_service.Events.Listing.{
  insert_latest, Page, is_among, sort_latest, page_of, workspace_endpoint_ids, choose_endpoint,
  list_among, list_events_as, check_page, is_chosen,
}
use webhook_relay_service.Http.{ok}

-- Each event of a list was received no later than those before it.
abbrev pub IsNewestFirst : List Event → Type 0
IsNewestFirst [] = Unit
IsNewestFirst (x ∷ xs) = All (λ (y : Event). y.received_at ≤ x.received_at) xs × IsNewestFirst xs

All-insert_latest :
    (P : Event → Type 0) (x : Event) (xs : List Event) → P x → All P xs → All P (insert_latest x xs)
All-insert_latest P x [] hx h = (hx, tt)
All-insert_latest P x (y ∷ ys) hx h = elim (Bool-cases (leb y.received_at x.received_at)) [
  | inl first ↦ rw first (hx, h)
  | inr later ↦ rw later (h.0, All-insert_latest P x ys hx h.1)
]

All-sort_latest : (P : Event → Type 0) (xs : List Event) → All P xs → All P (sort_latest xs)
unfolding sort_latest
All-sort_latest P [] h = tt
All-sort_latest P (x ∷ xs) h = All-insert_latest P x (sort_latest xs) h.0 (All-sort_latest P xs h.1)

insert_latest-IsNewestFirst :
    (x : Event) (xs : List Event) → IsNewestFirst xs → IsNewestFirst (insert_latest x xs)
insert_latest-IsNewestFirst x [] h = (tt, tt)
insert_latest-IsNewestFirst x (y ∷ ys) h = elim (Bool-cases (leb y.received_at x.received_at)) [
  | inl first ↦
      (let le : y.received_at ≤ x.received_at = ground (arith, first) in
        rw first (
          (
            le,
            All-imply (λ (z : Event). z.received_at ≤ y.received_at)
                (λ (z : Event). z.received_at ≤ x.received_at) ys (λ z k. omega (arith, le, k)) h.0,
          ),
          h,
        ))
  | inr later ↦
      (let le : x.received_at ≤ y.received_at = ground (arith, later) in
        rw later (
          All-insert_latest (λ (z : Event). z.received_at ≤ y.received_at) x ys le h.0,
          insert_latest-IsNewestFirst x ys h.1,
        ))
]

sort_latest-IsNewestFirst : (xs : List Event) → IsNewestFirst (sort_latest xs)
unfolding sort_latest
sort_latest-IsNewestFirst [] = tt
sort_latest-IsNewestFirst (x ∷ xs) =
    insert_latest-IsNewestFirst x (sort_latest xs) (sort_latest-IsNewestFirst xs)

take-IsNewestFirst : (n : ℕ) (xs : List Event) → IsNewestFirst xs → IsNewestFirst (take n xs)
take-IsNewestFirst zero xs h = tt
take-IsNewestFirst (suc n) [] h = tt
take-IsNewestFirst (suc n) (x ∷ xs) h =
    (All-take (λ (y : Event). y.received_at ≤ x.received_at) n xs h.0, take-IsNewestFirst n xs h.1)

drop-IsNewestFirst : (n : ℕ) (xs : List Event) → IsNewestFirst xs → IsNewestFirst (drop n xs)
drop-IsNewestFirst zero xs h = h
drop-IsNewestFirst (suc n) [] h = tt
drop-IsNewestFirst (suc n) (x ∷ xs) h = drop-IsNewestFirst n xs h.1

-- A list of events of the endpoints of some ids, as long as the page allows at most.
record IsListAmong (ids : List ℕ) (page : Page) (events : List Event) : Type 0 where
  own : All (λ (e : Event). is_among ids e.endpoint_id ≡ true) events
  newest_first : IsNewestFirst events
  few : (length events ≤ page.limit) × (length events ≤ 200)

-- A list of events of endpoints that are stored in a workspace, as long as the page allows at most.
pub record IsListOf (ws_id : ℕ) (db : Db) (page : Page) (events : List Event) : Type 0 where
  pub own : All (λ (e : Event). belongs ws_id db e.endpoint_id ≡ true) events
  pub newest_first : IsNewestFirst events
  pub few : (length events ≤ page.limit) × (length events ≤ 200)

IsListAmong-IsListOf :
    (ws_id : ℕ) (db : Db) (page : Page) (events : List Event)
    → IsListAmong (workspace_endpoint_ids ws_id db) page events
    → IsListOf ws_id db page events
IsListAmong-IsListOf ws_id db page events h = record {
  own =
      All-imply (λ (e : Event). is_among (workspace_endpoint_ids ws_id db) e.endpoint_id ≡ true)
        (λ (e : Event). belongs ws_id db e.endpoint_id ≡ true) events
        (λ e found. sym (is_among-workspace_endpoint_ids ws_id e.endpoint_id db) ∙ found) h.own;
  newest_first = h.newest_first;
  few = h.few;
}

ok-injective : {A : Type 0} (a b : A) → ok a ≡ ok b → a ≡ b
ok-injective a b h = cc

page-fits : (page : Page) (u : Unit) → check_page page ≡ ok u → ltb 200 page.limit ≡ false
page-fits page u h = ground (arith, h)

selected-IsListAmong :
    (ids : List ℕ) (chosen : Option ℕ) (page : Page) (events : List Event)
    → ltb 200 page.limit ≡ false
    → IsListAmong ids page (
        page_of page
          (sort_latest (keep (λ e. is_among ids e.endpoint_id && is_chosen chosen e) events)))
selected-IsListAmong ids chosen page events fits =
    let selects : Event → Bool = λ e. is_among ids e.endpoint_id && is_chosen chosen e in
    let own : Event → Type 0 = λ e. is_among ids e.endpoint_id ≡ true in
    let sorted = sort_latest (keep selects events) in
    let kept =
      All-imply (λ e. selects e ≡ true) own (keep selects events) (λ e h. ground (arith, h))
        (All-keep selects events) in
    let few = length-take page.limit (drop page.offset sorted) in
    record {
      own =
          All-take own page.limit (drop page.offset sorted)
            (All-drop own page.offset sorted (All-sort_latest own (keep selects events) kept));
      newest_first =
          take-IsNewestFirst page.limit (drop page.offset sorted) (
            drop-IsNewestFirst page.offset sorted
              (sort_latest-IsNewestFirst (keep selects events)));
      few = (few, ground (arith, few, fits));
    }

module _ (tokens : Tokens) (at : Commit) (endpoint_id : Option Text) (page : Page) (db : Db)
    (events : List Event) where
  among-IsListAmong :
      (ids : List ℕ)
      → ltb 200 page.limit ≡ false
      → (list_among tokens at ids endpoint_id page db).0 ≡ ok events
      → IsListAmong ids page events
  among-IsListAmong [] fits h =
      let none_found : [] ≡ events = cc in
      subst (IsListAmong [] page) none_found
        (record { own = tt; newest_first = tt; few = (omega arith, omega arith) })
  among-IsListAmong (id ∷ ids) fits h =
      let (chosen, _, listed) =
        bind-eq-ok (choose_endpoint tokens at (id ∷ ids) endpoint_id) _ db events h in
      subst (IsListAmong (id ∷ ids) page) (ok-injective _ _ listed) (
        selected-IsListAmong (id ∷ ids) chosen page
          (choose_endpoint tokens at (id ∷ ids) endpoint_id db).1.events fits)

  -- If the request for the events of a workspace succeeds, the user is a member whose role is at
  -- least viewer, and the list has at most 200 events and no more than the page asks for, the
  -- newest first, all of endpoints of that workspace.
  pub list_events-IsListOf :
      (workspace_id : Text) (user : User)
      → (list_events tokens at workspace_id user endpoint_id page db).0 ≡ ok events
      → (m : WorkspaceMembership) × (require_workspace_role tokens
            (codes "viewer")
            workspace_id
            user
            db
          ≡ ok m)
        × IsListOf m.workspace_id db page events
  unfolding list_events list_events_as
  list_events-IsListOf workspace_id user h =
      let (m, checked, listed) =
        bind-eq-ok (lift (require_workspace_role tokens (codes "viewer") workspace_id user db))
          (λ m. list_events_as tokens at m endpoint_id page) db events h in
      let (_, fits, rest) = bind-eq-ok (lift (check_page page)) _ db events listed in
      (
        m,
        checked,
        IsListAmong-IsListOf m.workspace_id db page events (
            among-IsListAmong (workspace_endpoint_ids m.workspace_id db) (page-fits page _ fits)
              rest),
      )
