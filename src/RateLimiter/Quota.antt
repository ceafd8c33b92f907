-- ===== src/RateLimiter/Quota.antt =====
-- No more calls than the limit pass in any 60 seconds.
use webhook_relay_service.Redis.Keys.{WindowKey}
use webhook_relay_service.Redis.{Windows}
use webhook_relay_service.RateLimiter.{SlidingWindowRateLimiter, allow_request, limit_of}
use webhook_relay_service.RateLimiter.Window.{recent}
use webhook_relay_service.RateLimiter.Description.{expected, answers, answers-expected, IsAscending}
use webhook_relay_service.Prelude.{
  Bool, List, [], arith, if◌then◌else◌, keep, leb, length, ltb, true, ℕ, ◌&&◌, ◌+◌, ◌∷◌, ◌≡◌, ◌≤◌,
  ◌-◌, Option, Bool-cases, inr, refl, inl, none,
}

-- The 60 seconds after `a`.
abbrev pub within : ℕ → ℕ → Bool
within a x = ltb a x && leb x (a + 60000)

-- How many of the calls in the 60 seconds after `a` passed.
abbrev pub passed : ℕ → List ℕ → List Bool → ℕ
passed a [] bs = 0
passed a (x ∷ xs) [] = 0
passed a (x ∷ xs) (b ∷ bs) = (if b && within a x then 1 else 0) + passed a xs bs

within-le-recent :
    (a now : ℕ) (log : List ℕ)
    → within a now ≡ true
    → length (keep (within a) log) ≤ length (recent now log)
within-le-recent a now [] h = omega arith
within-le-recent a now (x ∷ log) h = ground (arith, within-le-recent a now log h)

passed-expected :
    (a limit : ℕ) (log times : List ℕ)
    → passed a times (expected limit log times) ≤ limit - length (keep (within a) log)
passed-expected a limit log [] = omega arith
passed-expected a limit log (now ∷ later) =
    ground (arith, passed-expected a limit (now ∷ log) later, within-le-recent a now log)

module _ (w : Windows) (self : SlidingWindowRateLimiter) (key : WindowKey)
    (max_rpm : Option ℕ) where
  none_left :
      (a : ℕ) (times : List ℕ) (s : w.State)
      → limit_of self max_rpm ≡ 0
      → passed a times (answers w self key max_rpm times s) ≡ 0
  unfolding allow_request
  none_left a [] s h = refl
  none_left a (now ∷ later) s h = simp h (omega (arith, none_left a later s h))

  -- However the calls of a key are spread over time, at most the limit pass in the 60 seconds after
  -- any moment, when the set starts empty and the clock does not go back.
  pub passed-le-limit :
      (a : ℕ) (times : List ℕ) (s : w.State)
      → self.window_ms ≡ 60000
      → w.scores key s ≡ ([], none)
      → IsAscending 0 times
      → passed a times (answers w self key max_rpm times s) ≤ limit_of self max_rpm
  passed-le-limit a times s sixty fresh up = elim (Bool-cases (ltb 0 (limit_of self max_rpm))) [
    | inl some_left ↦
        rw (answers-expected w self sixty key max_rpm (ground arith) times s fresh up)
          (omega (arith, passed-expected a (limit_of self max_rpm) [] times))
    | inr zero_left ↦ omega (arith, none_left a times s (ground arith))
  ]
