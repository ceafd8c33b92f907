-- ===== src/Delivery/Schedule.antt =====
-- app/delivery/worker.py, schedule_deliveries: the deliveries of an event to its routes, as coroutines
-- that `asyncio.gather` runs. The gathering is a parameter: a function of the coroutines and the state.
use mathlib.Core.Path.{subst}
use webhook_relay_service.Transform.{Piped, Tools, PipelineError, piped, raises, ◌>>=◌}
use webhook_relay_service.Transform.Engine.{apply_pipeline}
use webhook_relay_service.Model.Rows.{Event}
use webhook_relay_service.Model.Json.{Fields, Value}
use webhook_relay_service.Delivery.{RouteArgs}
use webhook_relay_service.Prelude.{List, Option, [], none, some, ℕ, ◌∷◌, ◌≡◌, ◌⊎◌, inl, inr, refl}

-- The dictionary `route`: its pipeline beside what the delivery reads.
pub record Scheduled : Type 0 where
  pub args : RouteArgs
  pub transform_pipeline : Option (List Fields)

-- A coroutine `_deliver_with_retry(event_id, route, body, attempt)` that has not started.
pub record Coroutine : Type 0 where
  pub event_id : ℕ
  pub route : RouteArgs
  pub body : Value
  pub attempt : ℕ

Piped-cases :
    {A : Type 0} (m : Piped A) → ((a : A) × (m ≡ piped a)) ⊎ ((e : PipelineError) × (m ≡ raises e))
Piped-cases (piped a) = inl (a, refl)
Piped-cases (raises e) = inr (e, refl)

module _ (tools : Tools) (event : Event) where
  -- A pipeline that is missing or empty changes nothing.
  abbrev pub body_for : Option (List Fields) → Piped Value
  body_for none = piped event.request_body
  body_for (some []) = piped event.request_body
  body_for (some (step ∷ rest)) = apply_pipeline tools (step ∷ rest) event.request_body

  abbrev pub coroutine : Scheduled → Value → Coroutine
  coroutine route body = record {
    event_id = event.id;
    route = route.args;
    body = body;
    attempt = 0;
  }

  -- The loop over the routes: the list `tasks`.
  unfoldable pub tasks_for : List Scheduled → Piped (List Coroutine)
  tasks_for [] = piped []
  tasks_for (route ∷ routes) =
      let rest = tasks_for routes in
      body_for route.transform_pipeline >>= λ body.
      rest >>= λ tasks. piped (coroutine route body ∷ tasks)

  unfoldable pub schedule_deliveries :
      {S : Type 0} → (List Coroutine → S → S) → List Scheduled → S → Piped S
  schedule_deliveries gather routes s = tasks_for routes >>= λ tasks. piped (gather tasks s)

  -- What a pipeline, if there is one, makes of the body of the event.
  pub data Gives : Option (List Fields) → Piped Value → Type 0 where
    no_pipeline : Gives none (piped event.request_body)
    no_steps : Gives (some []) (piped event.request_body)
    steps :
        {step : Fields} {rest : List Fields}
        → Gives (some (step ∷ rest)) (apply_pipeline tools (step ∷ rest) event.request_body)

  body_for-Gives : (pipeline : Option (List Fields)) → Gives pipeline (body_for pipeline)
  body_for-Gives none = no_pipeline
  body_for-Gives (some []) = no_steps
  body_for-Gives (some (step ∷ rest)) = steps

  -- The first attempt of a delivery of the event to a route.
  abbrev pub first_attempt : RouteArgs → Value → Coroutine
  first_attempt args body = record { event_id = event.id; route = args; body = body; attempt = 0 }

  -- The coroutines of the routes, in order, each with the body that its pipeline gives.
  pub data AreTasksOf : List Scheduled → List Coroutine → Type 0 where
    no_tasks : AreTasksOf [] []
    one_more :
        {route : Scheduled} {routes : List Scheduled} {body : Value} {tasks : List Coroutine}
        → Gives route.transform_pipeline (piped body)
        → AreTasksOf routes tasks
        → AreTasksOf (route ∷ routes) (first_attempt route.args body ∷ tasks)

  -- The first route, and its error, whose pipeline raises.
  pub data RaisesFirst (e : PipelineError) : List Scheduled → Type 0 where
    here :
        {route : Scheduled} {routes : List Scheduled}
        → Gives route.transform_pipeline (raises e)
        → RaisesFirst e (route ∷ routes)
    later :
        {route : Scheduled} {routes : List Scheduled} {body : Value}
        → Gives route.transform_pipeline (piped body)
        → RaisesFirst e routes
        → RaisesFirst e (route ∷ routes)

  -- How the loop over the routes ends.
  pub data TasksEnd (routes : List Scheduled) : Piped (List Coroutine) → Type 0 where
    all_made : {tasks : List Coroutine} → AreTasksOf routes tasks → TasksEnd routes (piped tasks)
    one_raised : {e : PipelineError} → RaisesFirst e routes → TasksEnd routes (raises e)

  cons-TasksEnd :
      (route : Scheduled) (routes : List Scheduled) (body : Value) (rest : Piped (List Coroutine))
      → Gives route.transform_pipeline (piped body)
      → TasksEnd routes rest
      → TasksEnd (route ∷ routes) (rest >>= λ tasks. piped (coroutine route body ∷ tasks))
  cons-TasksEnd route routes body (piped tasks) e (all_made made) = all_made (one_more e made)
  cons-TasksEnd route routes body (raises err) e (one_raised first) = one_raised (later e first)

  pub tasks_for-TasksEnd : (routes : List Scheduled) → TasksEnd routes (tasks_for routes)
  unfolding tasks_for
  tasks_for-TasksEnd [] = all_made no_tasks
  tasks_for-TasksEnd (route ∷ routes) = elim (Piped-cases (body_for route.transform_pipeline)) [
    | inl (body, e) ↦ rw e (
        cons-TasksEnd route routes body (tasks_for routes)
          (subst (Gives route.transform_pipeline) e (body_for-Gives route.transform_pipeline))
          (tasks_for-TasksEnd routes))
    | inr (err, e) ↦ rw e (
        one_raised (
          here
            (subst (Gives route.transform_pipeline) e (body_for-Gives route.transform_pipeline))))
  ]

  -- What a scheduling did: it gathered a coroutine for every route, or it first and gathered none.
  pub data Ended {S : Type 0} (gather : List Coroutine → S → S) (routes : List Scheduled) (s : S)
      : Piped S → Type 0 where
    gathered :
        {tasks : List Coroutine}
        → AreTasksOf routes tasks
        → Ended gather routes s (piped (gather tasks s))
    stopped : {e : PipelineError} → RaisesFirst e routes → Ended gather routes s (raises e)

  TasksEnd-Ended :
      {S : Type 0} (gather : List Coroutine → S → S) (routes : List Scheduled) (s : S)
      (made : Piped (List Coroutine))
      → TasksEnd routes made
      → Ended gather routes s (made >>= λ tasks. piped (gather tasks s))
  TasksEnd-Ended gather routes s (piped tasks) (all_made made) = gathered made
  TasksEnd-Ended gather routes s (raises e) (one_raised first) = stopped first

  -- Deliveries are scheduled for all the routes of an event or for none: either every pipeline ends,
  -- and what is gathered is one coroutine for each route, in order, for a first attempt with the
  -- body that the route's pipeline makes of the event's; or the error is that of the first route
  -- whose pipeline raises, and nothing is gathered.
  pub schedule_deliveries-Ended :
      {S : Type 0} (gather : List Coroutine → S → S) (routes : List Scheduled) (s : S)
      → Ended gather routes s (schedule_deliveries gather routes s)
  unfolding schedule_deliveries
  schedule_deliveries-Ended gather routes s =
      TasksEnd-Ended gather routes s (tasks_for routes) (tasks_for-TasksEnd routes)
