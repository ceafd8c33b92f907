-- ===== src/Outbox.antt =====
-- workers/outbox_relay.py: the relay that publishes pending outbox rows to Kafka. A poll is one
-- round of the `while` loop; a sleep between rounds changes nothing.
pub mod Kept
pub mod Published
mod Examples
pub mod Batch
pub mod Guarantees
use webhook_relay_service.Prelude.{
  none, some, Bool, List, Option, Text, [], false, if◌then◌else◌, keep, leb, not, some, take, true,
  ℕ, ◌&&◌, ◌++◌, ◌+◌, ◌==◌, ◌∷◌,
}
use webhook_relay_service.Model.Rows.{
  Event, EventStatus, OutboxRecord, completed, failed, pending, queued,
}
use webhook_relay_service.Model.Db.{Db}

-- A message on a Kafka topic: the ids of an event and of its endpoint.
pub record Message : Type 0 where
  pub topic : Text
  pub event_id : ℕ
  pub endpoint_id : ℕ

-- What the environment of a poll decides: the rows that another transaction has locked, whether
-- the stop flag is set before the n-th row, what its publish does (an error has a text), and
-- whether the commit goes through.
pub record PollWorld : Type 0 where
  pub locked : ℕ → Bool
  pub stopped : ℕ → Bool
  pub publish_error : ℕ → Option Text
  pub commits : Bool

pub record Relay : Type 0 where
  pub db : Db
  pub messages : List Message

abbrev pub batch_size : ℕ
batch_size = 10

abbrev pub max_attempts : ℕ
max_attempts = 10

abbrev pub is_pending : OutboxRecord → Bool
is_pending record' = elim record'.status [ pending ↦ true | completed ↦ false | failed ↦ false ]

-- `order_by(OutboxRecord.created_at)`.
abbrev pub insert_by_time : OutboxRecord → List OutboxRecord → List OutboxRecord
insert_by_time x [] = x ∷ []
insert_by_time x (y ∷ ys) =
    let rest = insert_by_time x ys in if leb x.created_at y.created_at then x ∷ y ∷ ys else y ∷ rest

abbrev pub sort_by_time : List OutboxRecord → List OutboxRecord
sort_by_time [] = []
sort_by_time (x ∷ xs) = insert_by_time x (sort_by_time xs)

-- The pending rows that are not locked, the oldest first, ten at most.
unfoldable pub select_batch : PollWorld → Db → List OutboxRecord
select_batch world db =
    take batch_size (sort_by_time (keep (λ x. is_pending x && not (world.locked x.id)) db.outbox))

abbrev pub message_of : OutboxRecord → Message
message_of x = record {
  topic = x.publish_topic;
  event_id = x.event_id;
  endpoint_id = x.publish_key;
}

-- A row after its publish.
unfoldable pub after_publish : Option Text → OutboxRecord → OutboxRecord
after_publish none x = record x { status = completed }
after_publish (some e) x =
    let attempts = x.attempts + 1 in
    record x {
      attempts = attempts;
      last_error = some e;
      status = if leb max_attempts attempts then failed else x.status;
    }

-- The row of the same primary key is written.
abbrev pub write_row : OutboxRecord → List OutboxRecord → List OutboxRecord
write_row x [] = []
write_row x (y ∷ ys) = let rest = write_row x ys in if y.id == x.id then x ∷ ys else y ∷ rest

-- `ev = await db.get(Event, id)` and `ev.status = "queued"`, if there is such an event.
abbrev pub queue_event : ℕ → List Event → List Event
queue_event id [] = []
queue_event id (e ∷ es) =
    let rest = queue_event id es in
    if e.id == id then record e { status = EventStatus.queued } ∷ es else e ∷ rest

-- One row of the batch.
unfoldable pub relay_record : Option Text → OutboxRecord → Relay → Relay
relay_record none x s = record {
  db = record s.db {
    outbox = write_row (after_publish none x) s.db.outbox;
    events = queue_event x.event_id s.db.events;
  };
  messages = s.messages ++ message_of x ∷ [];
}
relay_record (some e) x s = record s {
  db = record s.db { outbox = write_row (after_publish (some e) x) s.db.outbox };
}

-- The `for` loop, which the stop flag ends.
unfoldable pub relay_batch : PollWorld → ℕ → List OutboxRecord → Relay → Relay
relay_batch world n [] s = s
relay_batch world n (x ∷ xs) s =
    let rest = relay_batch world (n + 1) xs (relay_record (world.publish_error n) x s) in
    if world.stopped n then s else rest

-- A commit that fails leaves the messages published and the rows as they were.
unfoldable pub poll : PollWorld → Relay → Relay
poll world s =
    let s' = relay_batch world 0 (select_batch world s.db) s in
    if world.commits then s' else record s { messages = s'.messages }
