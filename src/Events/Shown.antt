-- ===== src/Events/Shown.antt =====
-- Which events the view of dead letters shows.
use webhook_relay_service.Events.Belonging.{belongs, is_among-workspace_endpoint_ids}
use webhook_relay_service.Http.{ok}
use webhook_relay_service.Model.Db.{Db}
use webhook_relay_service.Prelude.{
  Bool, Bool-cases, List, Option-cases, [], any, ap, arith, false, inl, inr, keep, leb, refl, some,
  true, ℕ, ◌&&◌, ◌==◌, ◌||◌, ◌∙◌, ◌∷◌, ◌≡◌, map, none, sym, length, ltb, any-append, any-false,
  any_mono, take-nil, keep_none, drop-nil, any-keep, any-kept, not,
}
use webhook_relay_service.Model.Rows.{Event, DeliveryAttempt, WorkspaceMembership}
use webhook_relay_service.Events.Listing.{
  insert_latest, sort_latest, is_among, Page, workspace_endpoint_ids, page_of,
}
use webhook_relay_service.Events.DeadLetters.{
  max_attempt, dlq_row, is_failing, event_rows, last_attempts, rows_of, is_attempt_of, DlqEventOut,
  of_number, dlq_rows, list_dlq_as, is_shown, list_dlq_among,
}

any-insert_latest :
    (p : Event → Bool) (x : Event) (xs : List Event)
    → any p (insert_latest x xs) ≡ (p x || any p xs)
any-insert_latest p x [] = refl
any-insert_latest p x (y ∷ ys) = ground (arith, any-insert_latest p x ys)

any-sort_latest : (p : Event → Bool) (xs : List Event) → any p (sort_latest xs) ≡ any p xs
unfolding sort_latest
any-sort_latest p [] = refl
any-sort_latest p (x ∷ xs) =
    any-insert_latest p x (sort_latest xs) ∙ ap (λ b. p x || b) (any-sort_latest p xs)

max_attempt-attained :
    (xs : List DeliveryAttempt) (n : ℕ)
    → max_attempt xs ≡ some n
    → any (λ (a : DeliveryAttempt). a.attempt_number == n) xs ≡ true
unfolding max_attempt
max_attempt-attained [] n h = cc
max_attempt-attained (a ∷ rest) n h = elim (Option-cases (max_attempt rest)) [
  | inl last ↦ ground (arith, last, h)
  | inr (m, found) ↦
      (let ih = max_attempt-attained rest m found in
        elim (Bool-cases (leb m a.attempt_number)) [
          | inl first ↦ ground (arith, found, first, h, ih)
          | inr later ↦ ground (arith, found, later, h, ih)
        ])
]

-- An attempt of the event that failed.
abbrev pub fails_for : ℕ → DeliveryAttempt → Bool
fails_for event_id a = is_attempt_of event_id a && is_failing a

max_attempt-none :
    (xs : List DeliveryAttempt)
    → max_attempt xs ≡ none
    → any (λ (a : DeliveryAttempt). true) xs ≡ false
unfolding max_attempt
max_attempt-none [] h = refl
max_attempt-none (a ∷ rest) h = cc

abbrev fails_at : ℕ → ℕ → DeliveryAttempt → Bool
fails_at event_id n a = fails_for event_id a && a.attempt_number == n

fails_at-attained :
    (event_id n : ℕ) (attempts : List DeliveryAttempt)
    → max_attempt (keep (fails_for event_id) attempts) ≡ some n
    → any (fails_at event_id n) attempts ≡ true
fails_at-attained event_id n attempts found =
    sym (any-keep (λ a. a.attempt_number == n) (fails_for event_id) attempts)
    ∙ max_attempt-attained (keep (fails_for event_id) attempts) n found

any-last_attempts :
    (event_id : ℕ) (attempts : List DeliveryAttempt)
    → any (λ (a : DeliveryAttempt). true) (last_attempts event_id attempts)
      ≡ any (fails_for event_id) attempts
unfolding last_attempts
any-last_attempts event_id attempts =
    elim (Option-cases (max_attempt (keep (fails_for event_id) attempts))) [
      | inl no_number ↦ rw no_number (
          any-kept (λ a. false) attempts
          ∙ any-false attempts
          ∙ sym (max_attempt-none (keep (fails_for event_id) attempts) no_number)
          ∙ any-kept (fails_for event_id) attempts)
      | inr (n, found) ↦
          let attained = fails_at-attained event_id n attempts found in
          rw found (
            any-kept (of_number event_id (some n)) attempts
            ∙ any_mono (fails_at event_id n) (of_number event_id (some n)) attempts
                (λ a h. ground (arith, h)) attained
            ∙ sym (
                any_mono (fails_at event_id n) (fails_for event_id) attempts
                  (λ a h. ground (arith, h)) attained))
    ]

any-map_rows :
    (id total : ℕ) (event : Event) (attempts : List DeliveryAttempt)
    → any (λ (row : DlqEventOut). row.event_id == id) (map (dlq_row total event) attempts)
      ≡ (event.id == id && any (λ (a : DeliveryAttempt). true) attempts)
unfolding dlq_row
any-map_rows id total event [] = ground arith
any-map_rows id total event (a ∷ rest) = ground (arith, any-map_rows id total event rest)

any-event_rows :
    (id : ℕ) (attempts : List DeliveryAttempt) (event : Event)
    → any (λ (row : DlqEventOut). row.event_id == id) (event_rows attempts event)
      ≡ (event.id == id && any (fails_for id) attempts)
unfolding event_rows
any-event_rows id attempts event =
    any-map_rows id (length (keep (is_attempt_of event.id) attempts)) event
      (last_attempts event.id attempts)
    ∙ ap (λ b. event.id == id && b) (any-last_attempts event.id attempts)
    ∙ elim (Bool-cases (event.id == id)) [
      | inl same ↦
          (let ids : event.id ≡ id = ground (arith, same) in
            ap (λ i. event.id == id && any (fails_for i) attempts) ids)
      | inr differs ↦ rw differs refl
    ]

any-rows_of :
    (id : ℕ) (attempts : List DeliveryAttempt) (events : List Event)
    → any (λ (row : DlqEventOut). row.event_id == id) (rows_of attempts events)
      ≡ any (λ (e : Event). e.id == id && any (fails_for id) attempts) events
unfolding rows_of event_rows
any-rows_of id attempts [] = refl
any-rows_of id attempts (event ∷ rest) =
    any-append (λ (row : DlqEventOut). row.event_id == id) (event_rows attempts event)
      (rows_of attempts rest)
    ∙ ap (λ b. b || any (λ (row : DlqEventOut). row.event_id == id) (rows_of attempts rest))
        (any-event_rows id attempts event)
    ∙ ap (λ b. (event.id == id && any (fails_for id) attempts) || b) (any-rows_of id attempts rest)

-- An attempt of the event that has an error, or an answer of 500 or more.
abbrev pub has_failed : ℕ → DeliveryAttempt → Bool
has_failed id a = a.event_id == id && elim a.error [
  | some e ↦ true
  | none ↦ elim a.response_status [ none ↦ false | some status ↦ leb 500 status ]
]

fails_for-has_failed : (id : ℕ) (a : DeliveryAttempt) → fails_for id a ≡ has_failed id a
unfolding is_failing
fails_for-has_failed id a = ground arith

any_ext : {A : Type 0} (p q : A → Bool) (xs : List A) → ((x : A) → p x ≡ q x) → any p xs ≡ any q xs
any_ext p q [] h = refl
any_ext p q (x ∷ xs) h = ground (arith, h x, any_ext p q xs h)

-- Whether an event of that id is in the workspace's view and has an attempt that failed.
abbrev pub is_stuck : ℕ → Bool → Db → ℕ → Event → Bool
is_stuck ws_id include_discarded db id e =
    (belongs ws_id db e.endpoint_id && (include_discarded || not e.is_discarded))
    && (e.id == id && any (has_failed id) db.attempts)

-- The same, for the ids of the endpoints.
abbrev is_stuck_among : List ℕ → Bool → Db → ℕ → Event → Bool
is_stuck_among ids include_discarded db id e =
    (is_among ids e.endpoint_id && (include_discarded || not e.is_discarded))
    && (e.id == id && any (has_failed id) db.attempts)

any-is_stuck :
    (ws_id : ℕ) (include_discarded : Bool) (db : Db) (id : ℕ) (events : List Event)
    → any (is_stuck_among (workspace_endpoint_ids ws_id db) include_discarded db id) events
      ≡ any (is_stuck ws_id include_discarded db id) events
any-is_stuck ws_id include_discarded db id events =
    any_ext (is_stuck_among (workspace_endpoint_ids ws_id db) include_discarded db id)
      (is_stuck ws_id include_discarded db id) events
      (λ e.
        ap
          (λ own.
            (own && (include_discarded || not e.is_discarded))
            && (e.id == id && any (has_failed id) db.attempts))
          (is_among-workspace_endpoint_ids ws_id e.endpoint_id db))

any-dlq_rows :
    (ids : List ℕ) (include_discarded : Bool) (db : Db) (id : ℕ)
    → any (λ (row : DlqEventOut). row.event_id == id) (dlq_rows ids include_discarded db)
      ≡ any (is_stuck_among ids include_discarded db id) db.events
unfolding dlq_rows
any-dlq_rows ids include_discarded db id =
    let shown : Event → Bool = λ e. is_among ids e.endpoint_id && is_shown include_discarded e in
    any-rows_of id db.attempts (sort_latest (keep shown db.events))
    ∙ any-sort_latest (λ e. e.id == id && any (fails_for id) db.attempts) (keep shown db.events)
    ∙ any-keep (λ e. e.id == id && any (fails_for id) db.attempts) shown db.events
    ∙ ap (λ failing. any (λ e. shown e && (e.id == id && failing)) db.events)
        (any_ext (fails_for id) (has_failed id) db.attempts (fails_for-has_failed id))

no_rows : (include_discarded : Bool) (db : Db) → dlq_rows [] include_discarded db ≡ []
unfolding dlq_rows rows_of sort_latest
no_rows include_discarded db =
    rw (keep_none (λ (e : Event). false) db.events (any-false db.events)) refl

empty_page : {A : Type 0} (page : Page) → page_of {A = A} page [] ≡ []
empty_page page = rw (drop-nil page.offset) (take-nil page.limit)

among-rows :
    (ids : List ℕ) (include_discarded : Bool) (page : Page) (db : Db)
    → list_dlq_among ids include_discarded page db
      ≡ (ok (page_of page (dlq_rows ids include_discarded db)), db)
among-rows [] include_discarded page db =
    rw (no_rows include_discarded db) (rw (empty_page {A = DlqEventOut} page) refl)
among-rows (id ∷ ids) include_discarded page db = refl

-- For a page of at most 200 rows the view of dead letters is that page of some rows, in which an
-- event occurs exactly if it belongs to an endpoint of the workspace, is not discarded (unless
-- discarded events are asked for) and has an attempt with an error or a status of 500 or more,
-- whatever its other attempts say.
pub list_dlq-shows :
    (membership : WorkspaceMembership) (include_discarded : Bool) (page : Page) (db : Db)
    → ltb 200 page.limit ≡ false
    → (rows : List DlqEventOut) × (list_dlq_as membership include_discarded page db
        ≡ (ok (page_of page rows), db))
      × ((id : ℕ)
          → any (λ (row : DlqEventOut). row.event_id == id) rows
            ≡ any (is_stuck membership.workspace_id include_discarded db id) db.events)
unfolding list_dlq_as
list_dlq-shows membership include_discarded page db fits =
    let ids = workspace_endpoint_ids membership.workspace_id db in
    (
      dlq_rows ids include_discarded db,
      rw fits (among-rows ids include_discarded page db),
      λ id.
          any-dlq_rows ids include_discarded db id
          ∙ any-is_stuck membership.workspace_id include_discarded db id db.events,
    )
