-- ===== src/Outbox/Guarantees.antt =====
-- What a poll guarantees, whatever the environment decides: stop flag, publish errors, lost commits.
use webhook_relay_service.Outbox.Batch.{batch-All, All-map}
use webhook_relay_service.Prelude.{
  ==_refl, All, Bool, Bool-cases, List, Text, [], any, arith, inl, inr, none, some, text_eq,
  text_eq_refl, true, ◌&&◌, ◌++◌, ◌<◌, ◌==◌, ◌∷◌, ◌≡◌, ◌≤◌, ◌+◌, Option, ℕ,
}
use webhook_relay_service.Outbox.{
  Message, after_publish, max_attempts, message_of, write_row, relay_batch, poll, select_batch,
  relay_record, PollWorld, Relay,
}
use webhook_relay_service.Model.Rows.{OutboxRecord, completed, failed, pending}

-- A pending row has tries left, and a failed one has used them up.
abbrev pub IsConsistent : OutboxRecord → Type 0
IsConsistent x =
    (x.status ≡ pending → x.attempts < max_attempts)
    × (x.status ≡ failed → max_attempts ≤ x.attempts)

abbrev pub matches : OutboxRecord → Message → Bool
matches x m =
    text_eq m.topic x.publish_topic && (m.event_id == x.event_id && m.endpoint_id == x.publish_key)

-- A completed row has its message on its topic.
abbrev pub IsPublished : List Message → OutboxRecord → Type 0
IsPublished messages x = x.status ≡ completed → any (matches x) messages ≡ true

-- A row whose status and message are in order.
abbrev pub IsSound : List Message → OutboxRecord → Type 0
IsSound messages x = IsConsistent x × IsPublished messages x

any-append :
    (x : OutboxRecord) (ms : List Message) (m : Message)
    → any (matches x) ms ≡ true
    → any (matches x) (ms ++ m ∷ []) ≡ true
any-append x [] m h = cc
any-append x (n ∷ ms) m h = ground (arith, any-append x ms m)

any-last : (x : OutboxRecord) (ms : List Message) → any (matches x) (ms ++ message_of x ∷ []) ≡ true
any-last x [] = simp (text_eq_refl, ==_refl)
any-last x (n ∷ ms) = ground (arith, any-last x ms)

All-write :
    (P : OutboxRecord → Type 0) (x : OutboxRecord) (xs : List OutboxRecord)
    → P x
    → All P xs
    → All P (write_row x xs)
All-write P x [] px h = tt
All-write P x (y ∷ ys) px h = elim (Bool-cases (y.id == x.id)) [
  | inl found ↦ rw found (px, h.1)
  | inr not_yet ↦ rw not_yet (h.0, All-write P x ys px h.1)
]

more_messages :
    (ms : List Message) (m : Message) (xs : List OutboxRecord)
    → All (IsSound ms) xs
    → All (IsSound (ms ++ m ∷ [])) xs
more_messages ms m [] h = tt
more_messages ms m (x ∷ xs) h =
    ((h.0.0, λ done. any-append x ms m (h.0.1 done)), more_messages ms m xs h.1)

after_error-IsSound :
    (ms : List Message) (e : Text) (x : OutboxRecord)
    → IsSound ms x
    → IsSound ms (after_publish (some e) x)
unfolding after_publish
after_error-IsSound ms e x (consistent, published) =
    ((λ p. ground arith, λ p. ground (arith, consistent.1)), λ p. published (ground arith))

after_success-IsSound :
    (ms : List Message) (x : OutboxRecord)
    → IsSound (ms ++ message_of x ∷ []) (after_publish none x)
unfolding after_publish
after_success-IsSound ms x = ((λ p. cc, λ p. cc), λ _. any-last x ms)

-- All the rows of a relay are sound.
abbrev pub IsSoundRelay : Relay → Type 0
IsSoundRelay s = All (IsSound s.messages) s.db.outbox

relay_record-IsSound :
    (e : Option Text) (x : OutboxRecord) (s : Relay)
    → IsSound s.messages x
    → IsSoundRelay s
    → IsSoundRelay (relay_record e x s)
unfolding relay_record
relay_record-IsSound none x s hx h =
    All-write _ _ s.db.outbox (after_success-IsSound s.messages x)
      (more_messages s.messages (message_of x) s.db.outbox h)
relay_record-IsSound (some e) x s hx h =
    All-write _ _ s.db.outbox (after_error-IsSound s.messages e x hx) h

-- A message that is added keeps the rows of the batch sound too.
relay_record-messages :
    (e : Option Text) (x : OutboxRecord) (s : Relay) (xs : List OutboxRecord)
    → All (IsSound s.messages) xs
    → All (IsSound (relay_record e x s).messages) xs
unfolding relay_record
relay_record-messages none x s xs h = more_messages s.messages (message_of x) xs h
relay_record-messages (some e) x s xs h = h

relay_batch-IsSound :
    (world : PollWorld) (n : ℕ) (xs : List OutboxRecord) (s : Relay)
    → All (IsSound s.messages) xs
    → IsSoundRelay s
    → IsSoundRelay (relay_batch world n xs s)
unfolding relay_batch
relay_batch-IsSound world n [] s hx h = h
relay_batch-IsSound world n (x ∷ xs) s hx h = elim (Bool-cases (world.stopped n)) [
  | inl stop ↦ rw stop h
  | inr go ↦ rw go (
      relay_batch-IsSound world (n + 1) xs _
        (relay_record-messages (world.publish_error n) x s xs hx.1)
        (relay_record-IsSound (world.publish_error n) x s hx.0 h))
]

relay_batch-keeps_rows :
    (world : PollWorld) (n : ℕ) (batch xs : List OutboxRecord) (s : Relay)
    → All (IsSound s.messages) xs
    → All (IsSound (relay_batch world n batch s).messages) xs
unfolding relay_batch
relay_batch-keeps_rows world n [] xs s h = h
relay_batch-keeps_rows world n (b ∷ batch) xs s h = elim (Bool-cases (world.stopped n)) [
  | inl stop ↦ rw stop h
  | inr go ↦ rw go (
      relay_batch-keeps_rows world (n + 1) batch xs _
        (relay_record-messages (world.publish_error n) b s xs h))
]

-- Whatever the environment does to a poll (stop, failing publishes, a lost commit), a completed row
-- has its message on its topic, a pending row has tries left and a failed row has none.
pub poll-IsSound : (world : PollWorld) (s : Relay) → IsSoundRelay s → IsSoundRelay (poll world s)
unfolding poll
poll-IsSound world s h =
    let batch = batch-All (IsSound s.messages) world s.db h in
    elim (Bool-cases world.commits) [
      | inl done ↦ simp done (
          relay_batch-IsSound world 0 (select_batch world s.db) s
            (All-map _ _ (select_batch world s.db) (λ x p. p.0) batch) h)
      | inr lost ↦
          simp lost (relay_batch-keeps_rows world 0 (select_batch world s.db) s.db.outbox s h)
    ]
