-- ===== src/TransformWorker/AtLeastOnce.antt =====
-- Every raw event whose offset is committed has been handled.
use webhook_relay_service.Http.{filled}
use webhook_relay_service.Model.Rows.{Event}
use webhook_relay_service.TransformWorker.Published.{
  IsPublished, active_routes, process_event-IsPublished,
}
use webhook_relay_service.Model.Settings.{Settings}
use webhook_relay_service.Model.Db.{Db, event_by_id}
use mathlib.Core.List.{append-nil, append_assoc}
use webhook_relay_service.TransformWorker.{Transformed}
use webhook_relay_service.Transform.{Tools}
use webhook_relay_service.Prelude.{
  Bool-cases, List, Option, Text, [], arith, false, inl, inr, ltb, nth, some, sym, ℕ, ◌++◌, ◌+◌,
  ◌<◌, ◌≡◌, ◌≤◌, ◌∙◌, ap, Bool, true,
}
use mathlib.Core.Path.{subst}
use webhook_relay_service.TransformWorker.Loop.{
  here, next, receives, restarts, Reach, receive, RawMessage, handle_message, Surroundings,
  restarted, Worker,
}

module _ (tools : Tools) (settings : Settings) (parse_uuid : Text → Option ℕ)
    (meets : Surroundings → Type 0) (topic : List RawMessage) where
  -- A message names a stored event and an endpoint.
  pub record Names (db : Db) (message' : RawMessage) (event : Event) (endpoint_id : ℕ)
      : Type 0 where
    pub event_text : Text
    pub has_event : message'.event_id ≡ some event_text
    pub event_id : ℕ
    pub reads_event : parse_uuid event_text ≡ some event_id
    pub stored : event_by_id event_id db ≡ some event
    pub endpoint_text : Text
    pub has_endpoint : message'.endpoint_id ≡ some endpoint_text
    pub reads_endpoint : parse_uuid endpoint_text ≡ some endpoint_id
    pub filled_texts : (filled (some event_text) ≡ true) × (filled (some endpoint_text) ≡ true)

  -- In the surroundings of some round, what was published for the message of an offset: if it names
  -- a stored event, the messages of the active routes of its endpoint, up to the first publish that
  -- fails.
  pub record IsHandled (published : List Transformed) (o : ℕ) : Type 0 where
    pub around : Surroundings
    pub met : meets around
    pub message' : RawMessage
    pub found : nth o topic ≡ some message'
    pub own : List Transformed
    pub told :
        (event : Event) (endpoint_id : ℕ)
        → Names around.db message' event endpoint_id
        → IsPublished tools settings around.sends event (active_routes endpoint_id around.db) own
    pub before : List Transformed
    pub after : List Transformed
    pub split_at : published ≡ before ++ (own ++ after)

  handle_message-IsPublished :
      (db : Db) (sends : Transformed → Bool) (message' : RawMessage) (event : Event)
      (endpoint_id : ℕ)
      → Names db message' event endpoint_id
      → IsPublished tools settings sends event
          (active_routes endpoint_id db)
          (handle_message tools settings parse_uuid db sends message')
  unfolding handle_message
  handle_message-IsPublished db sends message' event endpoint_id n =
      rw (n.has_event, n.has_endpoint, n.filled_texts.0, n.filled_texts.1, n.reads_event)
        (rw (n.has_endpoint, n.reads_endpoint)
          (process_event-IsPublished tools settings sends db n.event_id endpoint_id event n.stored))

  later-IsHandled :
      (published more : List Transformed) (o : ℕ)
      → IsHandled published o
      → IsHandled (published ++ more) o
  later-IsHandled published more o h = record {
    around = h.around;
    met = h.met;
    message' = h.message';
    found = h.found;
    own = h.own;
    told = h.told;
    before = h.before;
    after = h.after ++ more;
    split_at =
        ap (λ xs. xs ++ more) h.split_at
        ∙ append_assoc h.before (h.own ++ h.after) more
        ∙ ap (λ xs. h.before ++ xs) (append_assoc h.own h.after more);
  }

  pub record IsCovered (c : Worker) : Type 0 where
    pub behind : c.committed_to ≤ c.position
    pub committed_handled : (o : ℕ) → o < c.committed_to → IsHandled c.published o
    pub going_handled : c.stopped ≡ false → (o : ℕ) → o < c.position → IsHandled c.published o

  all-IsHandled :
      (around : Surroundings) (message' : RawMessage) (c : Worker)
      → meets around
      → IsCovered c
      → c.stopped ≡ false
      → nth c.position topic ≡ some message'
      → (o : ℕ) → o < c.position + 1
      → IsHandled
          (c.published ++ handle_message tools settings parse_uuid around.db around.sends message')
          o
  all-IsHandled around message' c met covered going found o le =
      elim (Bool-cases (ltb o c.position)) [
        | inl old ↦
            later-IsHandled c.published
              (handle_message tools settings parse_uuid around.db around.sends message') o
              (covered.going_handled going o (ground (arith, old)))
        | inr new ↦
            let e : c.position ≡ o = ground (arith, new, le) in
            record {
              around = around;
              met = met;
              message' = message';
              found = subst (λ n. nth n topic ≡ some message') e found;
              own = handle_message tools settings parse_uuid around.db around.sends message';
              told = handle_message-IsPublished around.db around.sends message';
              before = c.published;
              after = [];
              split_at =
                  ap (λ xs. c.published ++ xs)
                    (sym (
                      append-nil (
                        handle_message tools settings parse_uuid around.db around.sends message')));
            }
      ]

  receive-IsCovered :
      (around : Surroundings) (message' : RawMessage) (c : Worker)
      → meets around
      → IsCovered c
      → c.stopped ≡ false
      → nth c.position topic ≡ some message'
      → IsCovered (receive tools settings parse_uuid around message' c)
  unfolding receive
  receive-IsCovered around message' c met covered going found = elim (Bool-cases around.stop) [
    | inl stopping ↦ rw stopping (record {
      behind = omega (arith, covered.behind);
      committed_handled = covered.committed_handled;
      going_handled = λ h. absurd cc;
    })
    | inr on ↦ elim (Bool-cases around.commits) [
      | inl done ↦ rw on (
          rw done (record {
            behind = omega arith;
            committed_handled = all-IsHandled around message' c met covered going found;
            going_handled = λ _. all-IsHandled around message' c met covered going found;
          }))
      | inr lost ↦ rw on (
          rw lost (record {
            behind = omega (arith, covered.behind);
            committed_handled =
                λ o lt. later-IsHandled c.published _ o (covered.committed_handled o lt);
            going_handled = λ _. all-IsHandled around message' c met covered going found;
          }))
    ]
  ]

  Reach-IsCovered :
      (c d : Worker) → Reach tools settings parse_uuid meets topic c d → IsCovered c → IsCovered d
  unfolding restarted
  Reach-IsCovered c d here covered = covered
  Reach-IsCovered c d (next {d = m} reached (receives around message' met going found same))
        covered =
      subst IsCovered (sym same)
        (receive-IsCovered around message' m met (Reach-IsCovered c m reached covered) going found)
  Reach-IsCovered c d (next {d = m} reached (restarts same)) covered =
      let before = Reach-IsCovered c m reached covered in
      subst IsCovered (sym same) (record {
        behind = omega arith;
        committed_handled = before.committed_handled;
        going_handled = λ _. before.committed_handled;
      })

  abbrev pub start : Worker
  start = record { position = 0; committed_to = 0; stopped = false; published = [] }

  -- Wherever the worker stops, crashes and starts again, and whichever publishes and commits fail:
  -- each message before the committed offset was handled in the surroundings of one of the rounds.
  -- If it names an event that is stored there, then the messages of the active routes of its
  -- endpoint, those that filter and pipeline let pass, up to the first whose publish fails there, are
  -- on the topic of transformed events.
  pub committed-IsHandled :
      (c : Worker)
      → Reach tools settings parse_uuid meets topic start c
      → (o : ℕ) → o < c.committed_to
      → IsHandled c.published o
  committed-IsHandled c reached =
      (Reach-IsCovered start c reached (record {
        behind = omega arith;
        committed_handled = λ o h. absurd (omega (arith, h));
        going_handled = λ _ o h. absurd (omega (arith, h));
      })).committed_handled
