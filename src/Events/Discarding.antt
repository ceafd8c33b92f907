-- ===== src/Events/Discarding.antt =====
-- Discarding an event and restoring it.
use webhook_relay_service.Http.{Result}
use webhook_relay_service.Workspaces.{Commit, commit}
use webhook_relay_service.Rbac.{Tokens}
use webhook_relay_service.Model.Db.{Db, endpoint_by_id, event_by_id}
use mathlib.Core.Path.{subst}
use webhook_relay_service.Prelude.{
  List, [], arith, find, refl, some, ℕ, ◌==◌, ◌∷◌, ◌≡◌, Bool-cases, true, ==_refl, ap, false, inr,
  inl, none, Text, ◌∙◌, sym, Option, Bool,
}
use webhook_relay_service.Model.Rows.{Event, WorkspaceMembership, Endpoint}
use webhook_relay_service.Events.{
  write_event_row, discarded, own_event, discard_as, mark, restore_as, restored, ok, EventReply,
}

write-write :
    (x y : Event) (es : List Event)
    → x.id ≡ y.id
    → write_event_row x (write_event_row y es) ≡ write_event_row x es
unfolding write_event_row
write-write x y [] same = refl
write-write x y (e ∷ es) same = ground (arith, same, write-write x y es same)

pub found-id :
    (id : ℕ) (x : Event) (es : List Event)
    → find (λ (e : Event). e.id == id) es ≡ some x
    → x.id ≡ id
found-id id x [] found = cc
found-id id x (e ∷ es) found = elim (Bool-cases (e.id == id)) [
  | inl hit ↦
      (let same : e ≡ x = ground (arith, hit, found) in
        subst (λ (y : Event). y.id ≡ id) same (ground (arith, hit)))
  | inr miss ↦ found-id id x es (rw miss at found)
]

write-found :
    (id : ℕ) (x : Event) (es : List Event)
    → find (λ (e : Event). e.id == id) es ≡ some x
    → write_event_row x es ≡ es
unfolding write_event_row
write-found id x [] found = refl
write-found id x (e ∷ es) found = elim (Bool-cases (e.id == id)) [
  | inl hit ↦
      (let same : e ≡ x = ground (arith, hit, found) in
        subst (λ (y : Event). write_event_row y (e ∷ es) ≡ e ∷ es) same
          (rw (==_refl, write_event_row) refl))
  | inr miss ↦
      (let later = rw miss at found in
        let other : (e.id == x.id) ≡ false = ground (arith, miss, found-id id x es later) in
        rw other (rw (write-found id x es later) refl))
]

find-write :
    (id : ℕ) (x y : Event) (es : List Event)
    → find (λ (e : Event). e.id == id) es ≡ some x
    → y.id ≡ x.id
    → find (λ (e : Event). e.id == id) (write_event_row y es) ≡ some y
unfolding write_event_row
find-write id x y [] found same = cc
find-write id x y (e ∷ es) found same = elim (Bool-cases (e.id == id)) [
  | inl hit ↦
      (let e_x : e ≡ x = ground (arith, hit, found) in
        let ids : e.id ≡ x.id = ap (λ (z : Event). z.id) e_x in
        let here_too : (e.id == y.id) ≡ true = ground (arith, ids, same) in
        let y_hit : (y.id == id) ≡ true = ground (arith, ids, same, hit) in
        rw here_too (rw y_hit refl))
  | inr miss ↦
      (let later = rw miss at found in
        let other_row : (e.id == y.id) ≡ false =
          ground (arith, miss, same, found-id id x es later) in
        rw other_row (rw miss (find-write id x y es later same)))
]

-- The event that a member of a workspace may change.
pub record IsOwn (membership : WorkspaceMembership) (ev_id : ℕ) (event : Event) (db : Db)
    : Type 0 where
  pub found : find (λ (e : Event). e.id == ev_id) db.events ≡ some event
  pub ep : Endpoint
  pub found_ep : endpoint_by_id event.endpoint_id db ≡ some ep
  pub same_place : (ep.workspace_id == membership.workspace_id) ≡ true

module _ (tokens : Tokens) (at : Commit) (membership : WorkspaceMembership) (ev_id : ℕ) where
  own_event-ok :
      (event : Event) (db : Db)
      → IsOwn membership ev_id event db
      → own_event tokens at membership ev_id db ≡ (ok event, db)
  unfolding own_event event_by_id
  own_event-ok event db own = rw own.found (rw own.found_ep (rw own.same_place refl))

  discard-mark :
      (event_id : Text) (event : Event) (db : Db)
      → tokens.parse_uuid event_id ≡ some ev_id
      → IsOwn membership ev_id event db
      → event.is_discarded ≡ false
      → at.commits ≡ true
      → discard_as tokens at membership event_id db
        ≡ (ok (discarded ev_id), mark tokens at event true (some at.now) db)
  unfolding discard_as commit
  discard-mark event_id event db parsed own open_event commits =
      simp (parsed, own_event-ok event db own) (simp (open_event, commits) refl)

  restore-mark :
      (event_id : Text) (event : Event) (db : Db)
      → tokens.parse_uuid event_id ≡ some ev_id
      → IsOwn membership ev_id event db
      → at.commits ≡ true
      → restore_as tokens at membership event_id db
        ≡ (ok (restored ev_id), mark tokens at event false none db)
  unfolding restore_as commit
  restore-mark event_id event db parsed own commits =
      simp (parsed, own_event-ok event db own) (simp commits refl)

unmarked :
    (event : Event)
    → event.is_discarded ≡ false
    → event.discarded_at ≡ none
    → record event { is_discarded = false; discarded_at = none } ≡ event
unmarked event open_event undated =
    ap (λ (b : Bool). record event { is_discarded = b; discarded_at = none }) (sym open_event)
    ∙ ap (λ (d : Option ℕ). record event { discarded_at = d }) (sym undated)

module _ (tokens : Tokens) (at at' : Commit) (membership : WorkspaceMembership) (ev_id : ℕ)
    (event : Event) (db : Db) where
  abbrev marked : Event
  marked = record event { is_discarded = true; discarded_at = some at.now }

  marked-IsOwn :
      IsOwn membership ev_id event db
      → IsOwn membership ev_id marked (mark tokens at event true (some at.now) db)
  unfolding endpoint_by_id
  marked-IsOwn own = record {
    found = find-write ev_id event marked db.events own.found refl;
    ep = own.ep;
    found_ep = own.found_ep;
    same_place = own.same_place;
  }

  restored-db :
      IsOwn membership ev_id event db
      → event.is_discarded ≡ false
      → event.discarded_at ≡ none
      → mark tokens at' marked false none (mark tokens at event true (some at.now) db) ≡ db
  restored-db own open_event undated =
      let events : write_event_row (record event { is_discarded = false; discarded_at = none })
            (write_event_row marked db.events)
          ≡ db.events =
        write-write (record event { is_discarded = false; discarded_at = none }) marked db.events
          refl
        ∙ ap (λ (e : Event). write_event_row e db.events) (unmarked event open_event undated)
        ∙ write-found ev_id event db.events own.found in
      ap (λ (es : List Event). record db { events = es }) events

  -- An event of the member's workspace that is not discarded can be discarded and restored, at any
  -- times: when both commits go through, the database is exactly as it was before.
  pub restore-discard :
      (event_id : Text)
      → tokens.parse_uuid event_id ≡ some ev_id
      → IsOwn membership ev_id event db
      → event.is_discarded ≡ false
      → event.discarded_at ≡ none
      → at.commits ≡ true
      → at'.commits ≡ true
      → restore_as tokens at' membership event_id (discard_as tokens at membership event_id db).1
        ≡ (ok (restored ev_id), db)
  restore-discard event_id parsed own open_event undated commits commits' =
      ap (λ (n : Result EventReply × Db). restore_as tokens at' membership event_id n.1)
        (discard-mark tokens at membership ev_id event_id event db parsed own open_event commits)
      ∙ restore-mark tokens at' membership ev_id event_id marked
          (mark tokens at event true (some at.now) db) parsed (marked-IsOwn own) commits'
      ∙ ap (λ (d : Db). (ok (restored ev_id), d)) (restored-db own open_event undated)
