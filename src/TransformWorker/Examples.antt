-- ===== src/TransformWorker/Examples.antt =====
-- A stored event and its one active route.
use webhook_relay_service.Model.Settings.{default_settings}
use webhook_relay_service.Transform.Filter.{route_matches_event}
use webhook_relay_service.TransformWorker.Loop.{
  Worker, receive, receives, here, next, RawMessage, Surroundings, handle_message,
}
use webhook_relay_service.TransformWorker.AtLeastOnce.{start, committed-IsHandled, IsHandled}
use webhook_relay_service.TransformWorker.{
  is_active_route, process_event, wants, dispatch_routes, dispatch_route,
}
use webhook_relay_service.Transform.{Tools, result}
use webhook_relay_service.Samples.{db}
use webhook_relay_service.Prelude.{
  [], none, refl, true, ◌∷◌, ◌≡◌, codes, arith, false, length, some,
}
use webhook_relay_service.Model.Db.{event_by_id}

abbrev tools : Tools
tools = record {
  search = λ expression value. result value;
  str_of = λ value. [];
  parse_float = λ t. none;
  divide = λ value divisor. none;
}

abbrev raw : RawMessage
raw = record { event_id = some (codes "event-009"); endpoint_id = some (codes "ep-4") }

abbrev quiet : Surroundings
quiet = record { db = db; stop = false; sends = λ m. true; commits = true }

-- Rounds on this database, whose publishes go through.
abbrev IsQuiet : Surroundings → Type 0
IsQuiet around = (around.db ≡ db) × (around.sends ≡ (λ m. true))

abbrev beginning : Worker
beginning = start tools default_settings (λ t. some (length t)) IsQuiet (raw ∷ [])

abbrev one_taken : Worker
one_taken = receive tools default_settings (λ t. some (length t)) quiet raw beginning

one_published : length one_taken.published ≡ 1
unfolding receive handle_message process_event event_by_id is_active_route dispatch_routes
    dispatch_route wants route_matches_event
one_published = refl

committed-IsHandled_example :
    IsHandled tools default_settings (λ t. some (length t)) IsQuiet (raw ∷ []) one_taken.published 0
unfolding receive
committed-IsHandled_example =
    committed-IsHandled tools default_settings (λ t. some (length t)) IsQuiet (raw ∷ []) one_taken
      (next here (receives quiet raw (refl, refl) refl refl refl)) 0 (omega arith)
