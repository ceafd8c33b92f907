-- ===== src/RateLimiter.antt =====
-- app/core/rate_limiter.py: a sliding window of call times in a Redis sorted set. The four
-- commands are one pipeline, which the server runs as a transaction, at one time in milliseconds.
-- A limit below zero is refused as the limit zero is, so limits are natural numbers.
pub mod Window
pub mod Description
pub mod Quota
mod Examples
use webhook_relay_service.Model.Json.{ℤ, pos, negsuc}
use webhook_relay_service.Redis.Keys.{WindowKey}
use webhook_relay_service.Redis.{Windows}
use webhook_relay_service.Prelude.{Bool, Option, false, if◌then◌else◌, leb, ltb, none, some, ℕ, ◌-◌}
use webhook_relay_service.Model.Settings.{Settings}

pub record SlidingWindowRateLimiter : Type 0 where
  pub max_rpm : ℕ
  pub window_ms : ℕ

unfoldable pub new_limiter : Settings → SlidingWindowRateLimiter
new_limiter settings = record { max_rpm = settings.rate_limit_rpm; window_ms = 60000 }

-- `max_rpm if max_rpm is not None else self.max_rpm`.
abbrev pub limit_of : SlidingWindowRateLimiter → Option ℕ → ℕ
limit_of self none = self.max_rpm
limit_of self (some max_rpm) = max_rpm

-- a - b, as an integer.
abbrev pub sub_ℕ : ℕ → ℕ → ℤ
sub_ℕ a b = if leb b a then pos (a - b) else negsuc (b - a - 1)

module _ (w : Windows) (self : SlidingWindowRateLimiter) where
  open w use {State, zremrangebyscore, zcard, zadd, expire}

  -- The pipeline: what ZCARD returned, and the new state.
  unfoldable pub pipeline : WindowKey → ℕ → State → ℕ × State
  pipeline key now s =
      let s' = zremrangebyscore now key (sub_ℕ now self.window_ms) s in
      (zcard now key s', expire now key 60 (zadd now key now s'))

  unfoldable pub allow_request : WindowKey → Option ℕ → ℕ → State → Bool × State
  allow_request key max_rpm now s =
      let limit = limit_of self max_rpm in
      if leb limit 0
      then (false, s)
      else (let (count, s') = pipeline key now s in (ltb count limit, s'))
