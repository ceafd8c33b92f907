-- ===== src/Outbox/Kept.antt =====
-- What a poll leaves of an event: everything but its status.
use webhook_relay_service.Prelude.{
  Bool, Bool-cases, List, Option, Text, [], false, find, if◌then◌else◌, inl, inr, none, some, true,
  ℕ, ◌+◌, ◌==◌, ◌∷◌, ◌≡◌, arith, ap,
}
use webhook_relay_service.Outbox.{
  PollWorld, Relay, poll, queue_event, relay_batch, relay_record, select_batch,
}
use webhook_relay_service.Model.Rows.{EventStatus, OutboxRecord, Event}

-- The event of that id is there, with some status.
pub record IsStored (id : ℕ) (event : Event) (es : List Event) : Type 0 where
  pub status : EventStatus
  pub found : find (λ (e : Event). e.id == id) es ≡ some (record event { status = status })

queue-find :
    (id k : ℕ) (event : Event) (es : List Event)
    → find (λ (e : Event). e.id == id) es ≡ some event
    → IsStored id event (queue_event k es)
queue-find id k event [] h = absurd cc
queue-find id k event (e ∷ es) h = elim (Bool-cases (e.id == id)) [
  | inl hit ↦
      (let same : e ≡ event = ground (arith, hit, h) in
        elim (Bool-cases (e.id == k)) [
          | inl queued_now ↦ rw queued_now (record {
            status = EventStatus.queued;
            found =
                rw hit (ap (λ (x : Event). some (record x { status = EventStatus.queued })) same);
          })
          | inr other_row ↦
              rw other_row (record { status = event.status; found = rw hit (ap some same) })
        ])
  | inr miss ↦
      (let later = rw miss at h in
        let rest = queue-find id k event es later in
        elim (Bool-cases (e.id == k)) [
          | inl queued_now ↦ rw queued_now (record { status = event.status; found = rw miss later })
          | inr other_row ↦
              rw other_row (record { status = rest.status; found = rw miss rest.found })
        ])
]

queue-IsStored :
    (id k : ℕ) (event : Event) (es : List Event)
    → IsStored id event es
    → IsStored id event (queue_event k es)
queue-IsStored id k event es stored =
    let again = queue-find id k (record event { status = stored.status }) es stored.found in
    record { status = again.status; found = again.found }

relay_record-IsStored :
    (id : ℕ) (event : Event) (e : Option Text) (x : OutboxRecord) (s : Relay)
    → IsStored id event s.db.events
    → IsStored id event (relay_record e x s).db.events
unfolding relay_record
relay_record-IsStored id event none x s stored =
    queue-IsStored id x.event_id event s.db.events stored
relay_record-IsStored id event (some e) x s stored = stored

relay_batch-IsStored :
    (id : ℕ) (event : Event) (world : PollWorld) (n : ℕ) (xs : List OutboxRecord) (s : Relay)
    → IsStored id event s.db.events
    → IsStored id event (relay_batch world n xs s).db.events
unfolding relay_batch
relay_batch-IsStored id event world n [] s stored = stored
relay_batch-IsStored id event world n (x ∷ xs) s stored = elim (Bool-cases (world.stopped n)) [
  | inl stop ↦ rw stop stored
  | inr go ↦ rw go (
      relay_batch-IsStored id event world (n + 1) xs (relay_record (world.publish_error n) x s)
        (relay_record-IsStored id event (world.publish_error n) x s stored))
]

committed_or_not :
    (id : ℕ) (event : Event) (commits : Bool) (s s' : Relay)
    → IsStored id event s.db.events
    → IsStored id event s'.db.events
    → IsStored id event (if commits then s' else record s { messages = s'.messages }).db.events
committed_or_not id event true s s' before after = after
committed_or_not id event false s s' before after = before

-- Whatever disturbs a poll, an event that was stored stays stored, with everything but its status.
pub poll-IsStored :
    (id : ℕ) (event : Event) (world : PollWorld) (s : Relay)
    → IsStored id event s.db.events
    → IsStored id event (poll world s).db.events
unfolding poll
poll-IsStored id event world s stored =
    committed_or_not id event world.commits s (relay_batch world 0 (select_batch world s.db) s)
      stored (relay_batch-IsStored id event world 0 (select_batch world s.db) s stored)
