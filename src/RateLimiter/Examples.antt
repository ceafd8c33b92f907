-- ===== src/RateLimiter/Examples.antt =====
-- The limiter on a server in memory, with a limit of two calls.
use webhook_relay_service.RedisMemory.{empty_windows, memory_windows}
use webhook_relay_service.Redis.Keys.{window_eq, dest}
use webhook_relay_service.RateLimiter.Quota.{passed, passed-le-limit}
use webhook_relay_service.RateLimiter.Description.{IsAscending, answers, answers-expected, expected}
use webhook_relay_service.RateLimiter.{SlidingWindowRateLimiter, allow_request, pipeline}
use webhook_relay_service.Prelude.{
  List, [], arith, false, none, refl, text_eq, true, ℕ, ◌∷◌, ◌≡◌, ◌≤◌,
}

abbrev limiter : SlidingWindowRateLimiter
limiter = record { max_rpm = 2; window_ms = 60000 }

abbrev times : List ℕ
times = 100000 ∷ 100010 ∷ 100020 ∷ 160005 ∷ 220000 ∷ []

-- The refused third call counts, so the fourth is refused too.
refused_calls_count :
    answers memory_windows limiter (dest []) none times empty_windows
    ≡ true ∷ true ∷ false ∷ false ∷ true ∷ []
unfolding allow_request pipeline window_eq text_eq
refused_calls_count = refl

times-IsAscending : IsAscending 0 times
times-IsAscending = omega arith

answers-expected_example :
    answers memory_windows limiter (dest []) none times empty_windows ≡ expected 2 [] times
answers-expected_example =
    answers-expected memory_windows limiter refl (dest []) none (omega arith) times empty_windows
      refl times-IsAscending

passed-le-limit_example :
    passed 99999 times (answers memory_windows limiter (dest []) none times empty_windows) ≤ 2
passed-le-limit_example =
    passed-le-limit memory_windows limiter (dest []) none 99999 times empty_windows refl refl
      times-IsAscending
