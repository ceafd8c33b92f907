-- ===== src/App/Started.antt =====
-- What an application that started has for its settings.
use webhook_relay_service.Prelude.{
  arith, false, length, none, true, ◌≡◌, ◌≤◌, Bool-cases, inr, Option-cases, inl, lower, codes, ◌⊎◌,
  refl, text_eq, if◌then◌else◌, some,
}
use webhook_relay_service.Model.Settings.{Settings, is_production, validate_production_settings}
use webhook_relay_service.App.{App, Services, running, start_up, init_kafka, started}

-- Secrets of at least 32 characters, and no insecure URLs where the environment, in any case, is
-- "prod" or "production".
pub record IsStrong (settings : Settings) : Type 0 where
  pub secret : 32 ≤ length settings.jwt_secret_key
  pub pepper : 32 ≤ length settings.password_pepper
  pub urls :
      (lower settings.environment ≡ codes "prod")
        ⊎ (lower settings.environment ≡ codes "production")
      → settings.allow_insecure_delivery_urls ≡ false

in_production :
    (settings : Settings)
    → (lower settings.environment ≡ codes "prod")
      ⊎ (lower settings.environment ≡ codes "production")
    → is_production settings ≡ true
unfolding is_production text_eq
in_production settings (inl prod) = rw prod refl
in_production settings (inr production) = rw production refl

validated-IsStrong :
    (settings : Settings) → validate_production_settings settings ≡ none → IsStrong settings
unfolding validate_production_settings
validated-IsStrong settings h = record {
  secret = ground (arith, h);
  pepper = ground (arith, h);
  urls = λ production. ground (arith, h, in_production settings production);
}

-- An application that runs has secrets of at least 32 characters and, where the environment is
-- "prod" or "production" in any case, lets no insecure URL through; it has a client for Redis, and a
-- started Kafka producer if the producer could be started, and none otherwise, whatever stopping
-- the failed one did.
pub start_up-IsStrong :
    (services : Services) (settings : Settings) (app : App)
    → start_up services settings ≡ running app
    → IsStrong settings
      × (app.redis_client ≡ true)
      × (app.producer ≡ (if services.broker.starts then some started else none))
unfolding start_up init_kafka
start_up-IsStrong services settings app h =
    elim (Option-cases (validate_production_settings settings)) [
      | inr (e, refused) ↦ absurd (ground (arith, refused, h))
      | inl valid ↦ elim (Bool-cases services.database) [
        | inr gone ↦ absurd (ground (arith, valid, gone, h))
        | inl there ↦ (
          validated-IsStrong settings valid,
          ground (arith, valid, there, h),
          ground (arith, valid, there, h),
        )
      ]
    ]
