-- ===== src/Events/Examples.antt =====
-- An event is discarded, and restored a second later; events are listed, and one is replayed.
use webhook_relay_service.Model.Settings.{default_settings}
use webhook_relay_service.Transform.{Tools, result}
use webhook_relay_service.Rbac.{get_workspace_membership, level_of, require_workspace_role}
use webhook_relay_service.Model.Rows.{DeliveryAttempt, WorkspaceMembership}
use webhook_relay_service.Model.Json.{dict, end}
use webhook_relay_service.Events.Shown.{is_stuck, list_dlq-shows}
use webhook_relay_service.Events.Requests.{discard_dlq_event, list_events, replay_event}
use webhook_relay_service.Events.Replayed.{IsReplayed, replay_event-IsReplayed}
use webhook_relay_service.Events.Replay.{Replayer, available, replay_event_as}
use webhook_relay_service.Events.Reads.{IsListOf, list_events-IsListOf}
use webhook_relay_service.Events.Listing.{
  Page, list_events_as, page_of, sort_latest, workspace_endpoint_ids,
}
use webhook_relay_service.Events.DeadLetters.{
  dlq_row, dlq_rows, event_rows, is_failing, last_attempts, list_dlq_as, max_attempt, rows_of,
  DlqEventOut,
}
use webhook_relay_service.Events.Changes.{IsMarked, after_change, change-IsMarked, discard}
use webhook_relay_service.Workspaces.{Commit, commit}
use webhook_relay_service.Samples.{alice, alice_owns, endpoint, event, tokens, db}
use webhook_relay_service.Prelude.{
  codes, refl, true, ℕ, ◌≡◌, ◌∷◌, ◌==◌, [], some, List, text_eq, any, Option, none, false, Bool,
  ◌∙◌, ap, sym,
}
use webhook_relay_service.Model.Db.{endpoint_by_id, event_by_id, Db, membership_by_id}
use webhook_relay_service.Events.Discarding.{IsOwn, restore-discard}
use webhook_relay_service.Events.{discard_as, restore_as, restored, ok, own_event, write_event_row}

abbrev request_at : ℕ → Commit
request_at now = record { now = now; new_id = 0; commits = true }

own : IsOwn alice_owns 9 event db
unfolding endpoint_by_id
own = record { found = refl; ep = endpoint; found_ep = refl; same_place = refl }

restore-discard_example :
    restore_as tokens
      (request_at 101000)
      alice_owns
      (codes "event-009")
      (discard_as tokens (request_at 100000) alice_owns (codes "event-009") db).1
    ≡ (ok (restored 9), db)
restore-discard_example =
    restore-discard tokens (request_at 100000) (request_at 101000) alice_owns 9 event db
      (codes "event-009") refl own refl refl refl refl

abbrev page : Page
page = record { limit = 50; offset = 0 }

abbrev attempt_row : ℕ → ℕ → Option ℕ → DeliveryAttempt
attempt_row route_id attempt status = record {
  event_id = 9;
  route_id = route_id;
  attempt_number = attempt;
  request_url = codes "https://shop.example/hook";
  request_body = dict end;
  response_status = status;
  response_body = none;
  error = none;
  duration_ms = 20;
}

-- A first attempt that failed and a second one that was delivered.
abbrev tried : Db
tried = record db { attempts = attempt_row 8 0 (some 503) ∷ attempt_row 8 1 (some 200) ∷ [] }

-- The delivered event is shown all the same.
shown_after_delivery :
    list_dlq_as alice_owns false page tried
    ≡ (ok (dlq_row 2 event (attempt_row 8 0 (some 503)) ∷ []), tried)
unfolding list_dlq_as workspace_endpoint_ids dlq_rows rows_of event_rows last_attempts max_attempt
    is_failing sort_latest
shown_after_delivery = refl

list_dlq-shows_example :
    (rows : List DlqEventOut) × (list_dlq_as alice_owns false page tried
      ≡ (ok (page_of page rows), tried))
    × ((id : ℕ)
        → any (λ (row : DlqEventOut). row.event_id == id) rows
          ≡ any (is_stuck 2 false tried id) tried.events)
list_dlq-shows_example = list_dlq-shows alice_owns false page tried refl

listed :
    (list_events tokens (request_at 100000) (codes "ws") alice none page db).0 ≡ ok (event ∷ [])
unfolding list_events list_events_as workspace_endpoint_ids require_workspace_role
    get_workspace_membership membership_by_id level_of text_eq sort_latest
listed = refl

list_events-IsListOf_example :
    (m : WorkspaceMembership) × (require_workspace_role tokens
        (codes "viewer")
        (codes "ws")
        alice
        db
      ≡ ok m)
    × IsListOf m.workspace_id db page (event ∷ [])
list_events-IsListOf_example =
    list_events-IsListOf tokens (request_at 100000) none page db (event ∷ []) (codes "ws") alice
      listed

abbrev marked_at : Db → Bool
marked_at d = elim d.events [ [] ↦ false | e ∷ rest ↦ e.is_discarded ]

discards :
    marked_at
      (after_change tokens (request_at 100000) alice db (discard (codes "ws") (codes "event-009")))
    ≡ true
unfolding after_change discard_dlq_event discard_as own_event event_by_id endpoint_by_id
    write_event_row commit require_workspace_role get_workspace_membership membership_by_id level_of
    text_eq
discards = refl

change-IsMarked_example :
    (m : WorkspaceMembership) × (require_workspace_role tokens (codes "admin") (codes "ws") alice db
      ≡ ok m)
    × IsMarked m db (
        after_change tokens (request_at 100000) alice db (discard (codes "ws") (codes "event-009")))
change-IsMarked_example =
    change-IsMarked tokens (request_at 100000) alice db (discard (codes "ws") (codes "event-009"))
      (λ same. let clash : true ≡ false = sym discards ∙ ap marked_at same in absurd cc)

abbrev replayer : Replayer
replayer = record { db = db; messages = [] }

replays :
    (replay_event tokens
      (request_at 100000)
      default_settings
      (codes "ws")
      alice
      (available true)
      (codes "event-009")
      replayer).0
    ≡ ok (record { event_id = 9 })
unfolding replay_event replay_event_as own_event event_by_id endpoint_by_id require_workspace_role
    get_workspace_membership membership_by_id level_of text_eq
replays = refl

abbrev tools : Tools
tools = record {
  search = λ expression value. result value;
  str_of = λ value. codes "x";
  parse_float = λ t. none;
  divide = λ value divisor. none;
}

replay_event-IsReplayed_example :
    (m : WorkspaceMembership) × (require_workspace_role tokens (codes "admin") (codes "ws") alice db
      ≡ ok m)
    × IsReplayed tokens default_settings tools
        (codes "event-009")
        m
        replayer
        (replay_event tokens
          (request_at 100000)
          default_settings
          (codes "ws")
          alice
          (available true)
          (codes "event-009")
          replayer).1
replay_event-IsReplayed_example =
    replay_event-IsReplayed tokens (request_at 100000) default_settings tools (available true)
      (codes "ws") alice (codes "event-009") replayer (record { event_id = 9 }) replays
