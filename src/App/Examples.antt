-- ===== src/App/Examples.antt =====
-- The settings of a deployment, and the default ones.
use webhook_relay_service.App.Database.{
  Initialised, Server, init_db, init_db-Initialised, migrate, migrations,
}
use webhook_relay_service.Prelude.{
  arith, [], codes, false, lower, lstrip, refl, strip, text_eq, true, ◌∷◌, ◌≡◌, ◌++◌, if◌then◌else◌,
  Text, inr, some, Bool, Bool-cases, inl, List, none, Option,
}
use webhook_relay_service.Model.Settings.{
  Settings, is_production, validate_production_settings, weak_jwt_secret, default_settings,
}
use webhook_relay_service.App.Started.{IsStrong, start_up-IsStrong}
use webhook_relay_service.App.{
  allow_origins, config, cors_origins, running, start_up, stopped, init_kafka, Client,
}

abbrev deployed : Settings
deployed = record default_settings {
  environment = codes "production";
  cors_allowed_origins = codes "https://a.example, ,https://b.example";
  jwt_secret_key = codes "0123456789abcdef0123456789abcdef";
  password_pepper = codes "fedcba9876543210fedcba9876543210";
}

-- No broker: the application runs all the same.
starts_without_broker :
    start_up
      (record { database = true; broker = record { starts = false; stops = false } })
      deployed
    ≡ running (record { producer = none; redis_client = true })
unfolding start_up init_kafka validate_production_settings is_production lower text_eq
starts_without_broker = refl

defaults_refused :
    start_up
      (record { database = true; broker = record { starts = true; stops = true } })
      default_settings
    ≡ stopped (config weak_jwt_secret)
unfolding start_up init_kafka validate_production_settings
defaults_refused = refl

two_origins : allow_origins deployed ≡ codes "https://a.example" ∷ codes "https://b.example" ∷ []
unfolding allow_origins cors_origins strip lstrip
two_origins = refl

local_origin : allow_origins default_settings ≡ codes "http://localhost:5173" ∷ []
unfolding allow_origins cors_origins strip lstrip
local_origin = refl

abbrev no_producer : Option Client
no_producer = none

start_up-IsStrong_example : IsStrong deployed × (true ≡ true) × (no_producer ≡ none)
start_up-IsStrong_example =
    start_up-IsStrong
      (record { database = true; broker = record { starts = false; stops = false } }) deployed
      (record { producer = none; redis_client = true }) starts_without_broker

abbrev run_or_abort : Text → Text → Bool × List Text → Bool × (Bool × List Text)
run_or_abort refused stmt (true, done) = (false, (true, done))
run_or_abort refused stmt (false, done) =
    if text_eq stmt refused then (false, (true, done)) else (true, (false, done ++ stmt ∷ []))

aborts_when_refused :
    (refused stmt : Text) (tx : Bool × List Text)
    → (run_or_abort refused stmt tx).0 ≡ false
    → (run_or_abort refused stmt tx).1.0 ≡ true
aborts_when_refused refused stmt (true, done) h = refl
aborts_when_refused refused stmt (false, done) h = elim (Bool-cases (text_eq stmt refused)) [
  | inl same ↦ rw same refl
  | inr differs ↦ absurd (ground (arith, h, differs))
]

stays_aborted :
    (refused stmt : Text) (tx : Bool × List Text)
    → tx.0 ≡ true
    → (run_or_abort refused stmt tx).1.0 ≡ true
stays_aborted refused stmt (true, done) h = refl
stays_aborted refused stmt (false, done) h = absurd (ground (arith, h))

-- A server in memory that holds the statements that were committed, and refuses one statement.
abbrev server : Text → Server
server refused = record {
  State = List Text;
  Tx = Bool × List Text;
  begin = λ s. some (false, s);
  create_all = λ tx. some (tx.0, tx.1 ++ codes "tables" ∷ []);
  execute = run_or_abort refused;
  commit = λ s tx. if tx.0 then s else tx.1;
  aborted = λ tx. tx.0;
  aborts = aborts_when_refused refused;
  stays = stays_aborted refused;
  rolls_back = λ s tx h. rw h refl;
}

init_db-Initialised_example :
    Initialised (server (codes "DROP")) [] (init_db (server (codes "DROP")) [])
init_db-Initialised_example = init_db-Initialised (server (codes "DROP")) []

-- The first migration fails: the start returns, and nothing is there.
nothing_made :
    init_db
      (server (codes "ALTER TABLE routes ADD COLUMN IF NOT EXISTS filter_expression TEXT;"))
      []
    ≡ (true, [])
unfolding init_db migrate text_eq
nothing_made = refl

all_made : init_db (server (codes "DROP")) [] ≡ (true, codes "tables" ∷ migrations)
unfolding init_db migrate text_eq
all_made = refl
