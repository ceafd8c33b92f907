-- ===== src/Pipeline.antt =====
-- How the gateway, the outbox relay and the retry scheduler change the events and the outbox
-- together, in any order of steps. No other code writes `Event.status` or an outbox row.
pub mod EndToEnd
pub mod Onward
mod Examples
pub mod Safety
use webhook_relay_service.Scheduler.{RoundWorld, is_failed, round}
use webhook_relay_service.Redis.{Redis, Windows}
use webhook_relay_service.Prelude.{All, List, false, ◌≡◌}
use webhook_relay_service.Outbox.Guarantees.{IsSound}
use webhook_relay_service.Outbox.{Message, PollWorld, Relay, poll}
use webhook_relay_service.Model.Settings.{Settings}
use webhook_relay_service.Model.Rows.{Event}
use webhook_relay_service.Model.Db.{Db}
use webhook_relay_service.Gateway.{Codecs, Gate, Moment, WebhookRequest, receive_webhook}

module _ (r : Redis) (w : Windows) (codecs : Codecs) (settings : Settings) where
  -- The shared state: the database, Redis and the messages on Kafka.
  pub record System : Type 0 where
    pub db : Db
    pub redis : r.State
    pub windows : w.State
    pub messages : List Message

  abbrev pub gate_of : System → Gate r w codecs settings
  gate_of s = record { db = s.db; redis = s.redis; windows = s.windows }

  abbrev pub with_gate : System → Gate r w codecs settings → System
  with_gate s g = record s { db = g.db; redis = g.redis; windows = g.windows }

  abbrev pub relay_of : System → Relay
  relay_of s = record { db = s.db; messages = s.messages }

  abbrev pub with_relay : System → Relay → System
  with_relay s x = record s { db = x.db; messages = x.messages }

  -- One step of one of the processes.
  pub data Step (s t : System) : Type 0 where
    ingress :
        (at : Moment) (q : WebhookRequest)
        → t ≡ with_gate s (receive_webhook r w codecs settings at q (gate_of s)).1
        → Step s t
    relay : (world : PollWorld) → t ≡ with_relay s (poll world (relay_of s)) → Step s t
    retry : (world : RoundWorld) → t ≡ with_relay s (round settings world (relay_of s)) → Step s t

  pub data Reach (s : System) : System → Type 0 where
    here : Reach s s
    next : {t u : System} → Reach s t → Step t u → Reach s u

  -- No event has the status "failed", and every outbox row is sound.
  pub record IsSafe (s : System) : Type 0 where
    pub none_failed : All (λ (e : Event). is_failed e.status ≡ false) s.db.events
    pub sound : All (IsSound s.messages) s.db.outbox
