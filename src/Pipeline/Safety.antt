-- ===== src/Pipeline/Safety.antt =====
-- What holds in every state that the processes reach.
use webhook_relay_service.Outbox.Guarantees.{IsSound, poll-IsSound}
use webhook_relay_service.Scheduler.{
  RoundWorld, is_failed, retry_events, round, select_retries, wants_retry,
}
use webhook_relay_service.Redis.{Redis, Windows}
use webhook_relay_service.Prelude.{
  All, Bool-cases, List, Option, Text, [], arith, false, inl, inr, keep, none, refl, some, ℕ, ◌+◌,
  ◌==◌, ◌∷◌, ◌≡◌, All-append,
}
use webhook_relay_service.Pipeline.{
  IsSafe, System, with_gate, gate_of, Step, relay_of, next, here, relay, Reach, retry, ingress,
}
use webhook_relay_service.Outbox.{
  PollWorld, Relay, poll, queue_event, relay_batch, relay_record, select_batch,
}
use webhook_relay_service.Model.Settings.{Settings}
use webhook_relay_service.Model.Rows.{Event, OutboxRecord}
use webhook_relay_service.Http.{Result, raised, ok}
use webhook_relay_service.Gateway.Storage.{Handled, receive-Handled}
use webhook_relay_service.Gateway.{
  Codecs, Gate, Moment, Reply, WebhookRequest, accepted, duplicate, receive_webhook,
}

abbrev NotFailed : Event → Type 0
NotFailed e = is_failed e.status ≡ false

queue-NotFailed : (id : ℕ) (es : List Event) → All NotFailed es → All NotFailed (queue_event id es)
queue-NotFailed id [] h = tt
queue-NotFailed id (e ∷ es) h = elim (Bool-cases (e.id == id)) [
  | inl found ↦ rw found (refl, h.1)
  | inr not_yet ↦ rw not_yet (h.0, queue-NotFailed id es h.1)
]

-- Where no event has failed, nothing is selected.
pub no_retries :
    (world : RoundWorld) (es : List Event) → All NotFailed es → keep (wants_retry world) es ≡ []
unfolding wants_retry
no_retries world [] h = refl
no_retries world (e ∷ es) h = rw h.0 (no_retries world es h.1)

relay_record-NotFailed :
    (e : Option Text) (x : OutboxRecord) (s : Relay)
    → All NotFailed s.db.events
    → All NotFailed (relay_record e x s).db.events
unfolding relay_record
relay_record-NotFailed none x s h = queue-NotFailed x.event_id s.db.events h
relay_record-NotFailed (some e) x s h = h

relay_batch-NotFailed :
    (world : PollWorld) (n : ℕ) (xs : List OutboxRecord) (s : Relay)
    → All NotFailed s.db.events
    → All NotFailed (relay_batch world n xs s).db.events
unfolding relay_batch
relay_batch-NotFailed world n [] s h = h
relay_batch-NotFailed world n (x ∷ xs) s h = elim (Bool-cases (world.stopped n)) [
  | inl stop ↦ rw stop h
  | inr go ↦ rw go (
      relay_batch-NotFailed world (n + 1) xs _
        (relay_record-NotFailed (world.publish_error n) x s h))
]

poll-NotFailed :
    (world : PollWorld) (s : Relay)
    → All NotFailed s.db.events
    → All NotFailed (poll world s).db.events
unfolding poll
poll-NotFailed world s h = elim (Bool-cases world.commits) [
  | inl done ↦ simp done (relay_batch-NotFailed world 0 (select_batch world s.db) s h)
  | inr lost ↦ simp lost h
]

round_idle :
    (settings : Settings) (world : RoundWorld) (s : Relay)
    → All NotFailed s.db.events
    → round settings world s ≡ s
unfolding round select_retries retry_events
round_idle settings world s h =
    let nothing = no_retries world s.db.events h in simp nothing (ground arith)

module _ (r : Redis) (w : Windows) (codecs : Codecs) (settings : Settings) where
  Handled-IsSafe :
      (at : Moment) (q : WebhookRequest) (s : System r w codecs settings)
      (n : Result Reply × Gate r w codecs settings)
      → Handled r w codecs settings at q s.db (gate_of r w codecs settings s).windows n
      → IsSafe r w codecs settings s
      → IsSafe r w codecs settings (with_gate r w codecs settings s n.1)
  Handled-IsSafe at q s (raised e, g) same h = record {
    none_failed = rw same h.none_failed;
    sound = rw same h.sound;
  }
  Handled-IsSafe at q s (ok duplicate, g) same h = record {
    none_failed = rw same.0 h.none_failed;
    sound = rw same.0 h.sound;
  }
  Handled-IsSafe at q s (ok (accepted id), g) (endpoint, payload, admitted, e, db) h = record {
    none_failed = rw db (All-append NotFailed s.db.events _ h.none_failed (refl, tt));
    sound = rw db (
        All-append (IsSound s.messages) s.db.outbox _ h.sound
          (((λ p. omega arith, λ p. cc), λ p. cc), tt));
  }

  -- Every step of every process keeps the state safe.
  Step-IsSafe :
      (s t : System r w codecs settings)
      → Step r w codecs settings s t
      → IsSafe r w codecs settings s
      → IsSafe r w codecs settings t
  Step-IsSafe s t (ingress at q e) h = rw e (
      Handled-IsSafe at q s
        (receive_webhook r w codecs settings at q (gate_of r w codecs settings s))
        (receive-Handled r w codecs settings at q (gate_of r w codecs settings s)) h)
  Step-IsSafe s t (relay world e) h = rw e (record {
    none_failed = poll-NotFailed world (relay_of r w codecs settings s) h.none_failed;
    sound = poll-IsSound world (relay_of r w codecs settings s) h.sound;
  })
  Step-IsSafe s t (retry world e) h =
      rw (e, round_idle settings world (relay_of r w codecs settings s) h.none_failed) h

  -- In every state that the processes reach from a safe one, such as the empty database, a completed
  -- outbox row has its message on its topic, a pending row has tries left and a failed one has none,
  -- and no event has the status "failed".
  pub Reach-IsSafe :
      {s t : System r w codecs settings}
      → IsSafe r w codecs settings s
      → Reach r w codecs settings s t
      → IsSafe r w codecs settings t
  Reach-IsSafe h here = h
  Reach-IsSafe h (next {t = t} {u = u} path step) = Step-IsSafe t u step (Reach-IsSafe h path)

  -- So the retry scheduler never selects an event and never publishes: it changes no reached state.
  pub scheduler_idle :
      {s t : System r w codecs settings} (world : RoundWorld)
      → IsSafe r w codecs settings s
      → Reach r w codecs settings s t
      → (select_retries world t.db ≡ [])
        × (round settings world (relay_of r w codecs settings t) ≡ relay_of r w codecs settings t)
  unfolding select_retries
  scheduler_idle {t = t} world h path =
      let safe = Reach-IsSafe h path in
      (
        rw (no_retries world t.db.events safe.none_failed) refl,
        round_idle settings world (relay_of r w codecs settings t) safe.none_failed,
      )
