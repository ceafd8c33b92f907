-- ===== src/Events/Changes.antt =====
-- What the requests that discard and restore events can change.
use webhook_relay_service.Workspaces.Members.{with_role}
use webhook_relay_service.Workspaces.{Commit, commit}
use webhook_relay_service.Rbac.{Tokens, require_workspace_role}
use webhook_relay_service.Prelude.{
  Bool, Bool-cases, Option, Option-cases, Text, codes, false, inl, inr, none, refl, some, true, ℕ,
  ◌==◌, ◌≡◌, ◌≢◌, ◌⊎◌,
}
use webhook_relay_service.Model.Rows.{Event, User, WorkspaceMembership}
use webhook_relay_service.Model.Db.{Db, endpoint_by_id, event_by_id}
use webhook_relay_service.Http.Action.{Action}
use webhook_relay_service.Events.Requests.{discard_dlq_event, restore_dlq_event}
use webhook_relay_service.Events.Discarding.{IsOwn}
use webhook_relay_service.Events.{
  discard_as, discarded, mark, own_event, restore_as, restored, write_event_row,
}
use webhook_relay_service.Http.{ok, raised, Result, HttpException}

pub data EventChange : Type 0 where
  discard restore : Text → Text → EventChange

-- The workspace that a request names.
abbrev pub place_of : EventChange → Text
place_of (discard workspace_id event_id) = workspace_id
place_of (restore workspace_id event_id) = workspace_id

-- One event, found through the workspace of the caller, has another mark, and nothing else changed.
pub record IsMarked (membership : WorkspaceMembership) (db db' : Db) : Type 0 where
  pub ev_id : ℕ
  pub event : Event
  pub own : IsOwn membership ev_id event db
  pub is_discarded : Bool
  pub discarded_at : Option ℕ
  pub marked : db' ≡ record db {
    events =
        write_event_row
          (record event { is_discarded = is_discarded; discarded_at = discarded_at })
          db.events;
  }

abbrev pub IsChange : WorkspaceMembership → Db → Db → Type 0
IsChange membership db db' = (db' ≡ db) ⊎ IsMarked membership db db'

abbrev event_missing : HttpException
event_missing = record { status_code = 404; detail = "event not found" }

module _ (tokens : Tokens) (at : Commit) (membership : WorkspaceMembership) (db : Db) where
  pub own_event-cases :
      (ev_id : ℕ)
      → ((e : HttpException) × (own_event tokens at membership ev_id db ≡ (raised e, db)))
        ⊎ ((event : Event) × (own_event tokens at membership ev_id db ≡ (ok event, db))
            × IsOwn membership ev_id event db)
  unfolding own_event event_by_id
  own_event-cases ev_id = elim (Option-cases (event_by_id ev_id db)) [
    | inl absent ↦ inl (event_missing, rw absent refl)
    | inr (event, found) ↦ elim (Option-cases (endpoint_by_id event.endpoint_id db)) [
      | inl absent ↦ inl (event_missing, rw found (rw absent refl))
      | inr (ep, found_ep) ↦ elim (Bool-cases (ep.workspace_id == membership.workspace_id)) [
        | inl same ↦ inr (
          event,
          rw found (rw found_ep (rw same refl)),
          record { found = found; ep = ep; found_ep = found_ep; same_place = same },
        )
        | inr differs ↦ inl (event_missing, rw found (rw found_ep (rw differs refl)))
      ]
    ]
  ]

  commit-IsChange :
      {A : Type 0} (ev_id : ℕ) (event : Event) (reply : A) (mark_it : Bool) (marked_at : Option ℕ)
      → IsOwn membership ev_id event db
      → IsChange membership db (commit at reply (mark tokens at event mark_it marked_at db) db).1
  unfolding commit
  commit-IsChange ev_id event reply mark_it marked_at own = elim (Bool-cases at.commits) [
    | inl goes ↦ rw goes (
        inr record {
          ev_id = ev_id;
          event = event;
          own = own;
          is_discarded = mark_it;
          discarded_at = marked_at;
          marked = refl;
        })
    | inr fails ↦ rw fails (inl refl)
  ]

  discard_as-IsChange :
      (event_id : Text) → IsChange membership db (discard_as tokens at membership event_id db).1
  unfolding discard_as
  discard_as-IsChange event_id = elim (Option-cases (tokens.parse_uuid event_id)) [
    | inl bad ↦ rw bad (inl refl)
    | inr (ev_id, parsed) ↦ elim (own_event-cases ev_id) [
      | inl (e, refused) ↦ rw parsed (rw refused (inl refl))
      | inr (event, found, own) ↦ elim (Bool-cases event.is_discarded) [
        | inl already ↦ rw parsed (rw found (rw already (inl refl)))
        | inr not_yet ↦ rw parsed (
            rw found
              (rw not_yet (commit-IsChange ev_id event (discarded ev_id) true (some at.now) own)))
      ]
    ]
  ]

  restore_as-IsChange :
      (event_id : Text) → IsChange membership db (restore_as tokens at membership event_id db).1
  unfolding restore_as
  restore_as-IsChange event_id = elim (Option-cases (tokens.parse_uuid event_id)) [
    | inl bad ↦ rw bad (inl refl)
    | inr (ev_id, parsed) ↦ elim (own_event-cases ev_id) [
      | inl (e, refused) ↦ rw parsed (rw refused (inl refl))
      | inr (event, found, own) ↦
          rw parsed (rw found (commit-IsChange ev_id event (restored ev_id) false none own))
    ]
  ]

module _ (tokens : Tokens) (at : Commit) (user : User) (db : Db) where
  unfoldable pub after_change : EventChange → Db
  after_change (discard workspace_id event_id) =
      (discard_dlq_event tokens at workspace_id user event_id db).1
  after_change (restore workspace_id event_id) =
      (restore_dlq_event tokens at workspace_id user event_id db).1

  admin-IsChange :
      {A : Type 0} (workspace_id : Text) (body : WorkspaceMembership → Action Db A)
      (checked : Result WorkspaceMembership)
      → require_workspace_role tokens (codes "admin") workspace_id user db ≡ checked
      → ((m : WorkspaceMembership) → IsChange m db (body m db).1)
      → (with_role tokens at (codes "admin") workspace_id user body db).1 ≢ db
      → (m : WorkspaceMembership) × (require_workspace_role tokens
            (codes "admin")
            workspace_id
            user
            db
          ≡ ok m)
        × IsMarked m db (with_role tokens at (codes "admin") workspace_id user body db).1
  admin-IsChange workspace_id body (raised e) h changes differs = absurd (differs (rw h refl))
  admin-IsChange workspace_id body (ok m) h changes differs = elim (changes m) [
    | inl same ↦ absurd (differs (rw h same))
    | inr marked ↦ (m, h, rw h marked)
  ]

  -- A request to discard or to restore an event that changes the database was made by a member of
  -- the workspace that it names whose role is at least admin, and changed nothing but the mark of
  -- one event, whose endpoint belongs to that workspace.
  pub change-IsMarked :
      (q : EventChange)
      → after_change q ≢ db
      → (m : WorkspaceMembership) × (require_workspace_role tokens
            (codes "admin")
            (place_of q)
            user
            db
          ≡ ok m)
        × IsMarked m db (after_change q)
  unfolding after_change discard_dlq_event restore_dlq_event
  change-IsMarked (discard workspace_id event_id) differs =
      admin-IsChange workspace_id (λ m. discard_as tokens at m event_id) _ refl
        (λ m. discard_as-IsChange tokens at m db event_id) differs
  change-IsMarked (restore workspace_id event_id) differs =
      admin-IsChange workspace_id (λ m. restore_as tokens at m event_id) _ refl
        (λ m. restore_as-IsChange tokens at m db event_id) differs
