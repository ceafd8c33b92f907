-- ===== src/Breaker.antt =====
-- app/delivery/circuit_breaker.py: the state of a destination's breaker in Redis. Each method
-- runs at one time, `time.time()` in milliseconds, and alone, with no command of another caller
-- between its own; Breaker/Racing has `is_open` command by command, with callers between.
pub mod Racing
pub mod Phases
pub mod Lasting
pub mod Probes
mod Examples
pub mod Results
use webhook_relay_service.Prelude.{
  ℕ, ◌+◌, ◌*◌, Bool, true, false, Option, none, some, Text, codes, leb, text_eq, if◌then◌else◌,
}
use webhook_relay_service.Model.Settings.{Settings}
use webhook_relay_service.Redis.{Redis, Stored, text, count, time, set_nx}
use webhook_relay_service.Redis.Keys.{cb_state, cb_failures, cb_open_since, cb_half_tested}

-- The attributes that `__init__` sets; the cooldown is in seconds.
pub record CircuitBreaker : Type 0 where
  pub url : Text
  pub threshold : ℕ
  pub cooldown : ℕ

unfoldable pub new : Settings → Text → CircuitBreaker
new settings url = record {
  url = url;
  threshold = settings.circuit_breaker_threshold;
  cooldown = settings.circuit_breaker_cooldown_s;
}

abbrev pub open_word : Stored
open_word = text (codes "OPEN")

abbrev pub half_open_word : Stored
half_open_word = text (codes "HALF_OPEN")

abbrev pub one_word : Stored
one_word = text (codes "1")

-- `state == "OPEN"` and `state == "HALF_OPEN"`.
abbrev pub is_word : Text → Stored → Bool
is_word w (text t) = text_eq t w
is_word w (count n) = false
is_word w (time t) = false

-- `float(open_since or 0)`.
abbrev pub since : Option Stored → ℕ
since (some (time t)) = t
since (some (count n)) = n * 1000
since _ = 0

module _ (r : Redis) (cb : CircuitBreaker) (now : ℕ) where
  open r use {State, get, set, delete, incr, expire}

  -- `time.time() - open_since >= self.cooldown`, without a subtraction.
  when_open : State → Bool × State
  when_open s =
      if leb (since (get now (cb_open_since cb.url) s) + cb.cooldown * 1000) now
      then (false, set now (cb_state cb.url) half_open_word none s)
      else (true, s)

  when_half_open : State → Bool × State
  unfolding set_nx
  when_half_open s =
      let (tested, s') = set_nx r now (cb_half_tested cb.url) one_word none s in
      if tested then (false, s') else (true, s')

  is_open_at : Option Stored → State → Bool × State
  unfolding when_open when_half_open
  is_open_at none s = (false, s)
  is_open_at (some state) s =
      if is_word (codes "OPEN") state
      then when_open s
      else if is_word (codes "HALF_OPEN") state
      then when_half_open s
      else (false, s)

  -- Whether a delivery must wait, and the new state.
  unfoldable pub is_open : State → Bool × State
  unfolding is_open_at
  is_open s = is_open_at (get now (cb_state cb.url) s) s

  unfoldable pub record_success : State → State
  record_success s =
      delete (cb_half_tested cb.url)
        (delete (cb_open_since cb.url) (delete (cb_failures cb.url) (delete (cb_state cb.url) s)))

  unfoldable pub record_failure : State → State
  record_failure s =
      let (failures, s') = incr now (cb_failures cb.url) s in
      let s'' = expire now (cb_failures cb.url) 60 s' in
      if leb cb.threshold failures
      then set now (cb_open_since cb.url) (time now) none
          (set now (cb_state cb.url) open_word none s'')
      else s''
