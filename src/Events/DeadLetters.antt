-- ===== src/Events/DeadLetters.antt =====
-- app/api/events.py: the view of the events that could not be delivered, which is a query on the
-- rows of the attempts.
use webhook_relay_service.Prelude.{
  Bool, List, Option, Text, [], false, if◌then◌else◌, keep, leb, length, map, none, not, some, true,
  ℕ, ◌&&◌, ◌++◌, ◌==◌, ◌||◌, ◌∷◌,
}
use webhook_relay_service.Model.Rows.{DeliveryAttempt, WorkspaceMembership, Event}
use webhook_relay_service.Model.Json.{Value}
use webhook_relay_service.Model.Db.{Db}
use webhook_relay_service.Events.Listing.{
  Page, check_page, is_among, page_of, sort_latest, workspace_endpoint_ids,
}
use webhook_relay_service.Http.Action.{◌>>=◌, ◌>>◌, gets, Action, lift, pure}

pub record DlqEventOut : Type 0 where
  pub event_id : ℕ
  pub endpoint_id : ℕ
  pub received_at : ℕ
  pub request_body : Value
  pub is_discarded : Bool
  pub discarded_at : Option ℕ
  pub last_error : Option Text
  pub last_status : Option ℕ
  pub last_url : Text
  pub total_attempts : ℕ

-- `error IS NOT NULL OR response_status >= 500`, where a comparison with NULL does not hold.
abbrev pub is_given : Option Text → Bool
is_given none = false
is_given (some e) = true

abbrev pub at_least_500 : Option ℕ → Bool
at_least_500 none = false
at_least_500 (some status) = leb 500 status

unfoldable pub is_failing : DeliveryAttempt → Bool
is_failing a = is_given a.error || at_least_500 a.response_status

abbrev pub is_attempt_of : ℕ → DeliveryAttempt → Bool
is_attempt_of event_id a = a.event_id == event_id

-- `func.max(attempt_number)`, where no row has no maximum.
abbrev pub max_with : ℕ → Option ℕ → ℕ
max_with n none = n
max_with n (some m) = if leb m n then n else m

unfoldable pub max_attempt : List DeliveryAttempt → Option ℕ
max_attempt [] = none
max_attempt (a ∷ rest) = some (max_with a.attempt_number (max_attempt rest))

-- The join of the attempts with the number of the last failing attempt of their event.
abbrev pub of_number : ℕ → Option ℕ → DeliveryAttempt → Bool
of_number event_id none a = false
of_number event_id (some n) a = is_attempt_of event_id a && a.attempt_number == n

unfoldable pub last_attempts : ℕ → List DeliveryAttempt → List DeliveryAttempt
last_attempts event_id attempts =
    keep
      (of_number event_id
        (max_attempt (keep (λ a. is_attempt_of event_id a && is_failing a) attempts)))
      attempts

unfoldable pub dlq_row : ℕ → Event → DeliveryAttempt → DlqEventOut
dlq_row total event a = record {
  event_id = event.id;
  endpoint_id = event.endpoint_id;
  received_at = event.received_at;
  request_body = event.request_body;
  is_discarded = event.is_discarded;
  discarded_at = event.discarded_at;
  last_error = a.error;
  last_status = a.response_status;
  last_url = a.request_url;
  total_attempts = total;
}

-- The rows of one event: one for each attempt that the join has.
unfoldable pub event_rows : List DeliveryAttempt → Event → List DlqEventOut
event_rows attempts event =
    map (dlq_row (length (keep (is_attempt_of event.id) attempts)) event)
      (last_attempts event.id attempts)

unfoldable pub rows_of : List DeliveryAttempt → List Event → List DlqEventOut
rows_of attempts [] = []
rows_of attempts (event ∷ rest) = event_rows attempts event ++ rows_of attempts rest

abbrev pub is_shown : Bool → Event → Bool
is_shown include_discarded event = include_discarded || not event.is_discarded

-- The whole view, before a page of it is taken.
unfoldable pub dlq_rows : List ℕ → Bool → Db → List DlqEventOut
dlq_rows ids include_discarded db = rows_of db.attempts (
    sort_latest
      (keep (λ (e : Event). is_among ids e.endpoint_id && is_shown include_discarded e) db.events))

abbrev pub list_dlq_among : List ℕ → Bool → Page → Action Db (List DlqEventOut)
list_dlq_among [] include_discarded page = pure []
list_dlq_among (id ∷ ids) include_discarded page =
    gets (λ db. page_of page (dlq_rows (id ∷ ids) include_discarded db))

unfoldable pub list_dlq_as : WorkspaceMembership → Bool → Page → Action Db (List DlqEventOut)
list_dlq_as membership include_discarded page = do
  lift (check_page page)
  ids ← gets (workspace_endpoint_ids membership.workspace_id)
  list_dlq_among ids include_discarded page
