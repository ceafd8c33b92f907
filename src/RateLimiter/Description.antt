-- ===== src/RateLimiter/Description.antt =====
-- The limiter against an independent description: a log of the times of all the calls.
use webhook_relay_service.Redis.Keys.{WindowKey}
use webhook_relay_service.Redis.{ScoreSet, Windows, live_scores}
use webhook_relay_service.RateLimiter.Window.{
  pushed, recent, recent-recent, count-pipeline, scores-pipeline, recent_old,
}
use webhook_relay_service.RateLimiter.{SlidingWindowRateLimiter, allow_request, pipeline, limit_of}
use webhook_relay_service.Prelude.{
  All, Bool, List, Option, [], arith, length, ltb, ℕ, ◌∷◌, ◌≡◌, ◌≤◌, ◌+◌, inr, inl, Bool-cases, ◌<◌,
  ◌∙◌, ap, sym, none, false, leb, refl,
}

-- The answers to calls at the given times, one after another, and the last state.
abbrev pub answers :
    (w : Windows) → SlidingWindowRateLimiter → WindowKey → Option ℕ → List ℕ → w.State → List Bool
answers w self key max_rpm [] s = []
answers w self key max_rpm (now ∷ later) s =
    let (allowed, s') = allow_request w self key max_rpm now s in
    allowed ∷ answers w self key max_rpm later s'

-- The description: a call passes if fewer than `limit` calls, refused ones included, came in the
-- 60 seconds before it.
abbrev pub expected : ℕ → List ℕ → List ℕ → List Bool
expected limit log [] = []
expected limit log (now ∷ later) =
    ltb (length (recent now log)) limit ∷ expected limit (now ∷ log) later

-- The clock does not go back.
abbrev pub IsAscending : ℕ → List ℕ → Type 0
IsAscending last [] = Unit
IsAscending last (now ∷ later) = (last ≤ now) × IsAscending now later

-- The set shows the log in every window from `last` on.
abbrev Tracks : ScoreSet → ℕ → List ℕ → Type 0
Tracks l last log =
    All (λ x. x ≤ last) log × ((t : ℕ) → last ≤ t → recent t (live_scores t l) ≡ recent t log)

All-le :
    (last now : ℕ) (log : List ℕ) → last ≤ now → All (λ x. x ≤ last) log → All (λ x. x ≤ now) log
All-le last now [] h a = tt
All-le last now (x ∷ log) h a = (omega (arith, a.0), All-le last now log h a.1)

pushed-recent :
    (l : ScoreSet) (last now : ℕ) (log : List ℕ)
    → last ≤ now
    → Tracks l last log
    → (t : ℕ) → now ≤ t
    → recent t (live_scores t (pushed now l)) ≡ recent t (now ∷ log)
pushed-recent l last now log h tracks t ht =
    let same : recent t (recent now (live_scores now l)) ≡ recent t log =
      ap (recent t) (tracks.1 now h) ∙ recent-recent t now log ht in
    elim (Bool-cases (ltb t (now + 60000))) [
      | inl near ↦ rw (near, near) (ap (λ m. now ∷ m) same)
      | inr far ↦
          rw far (sym (recent_old t now log (ground arith) (All-le last now log h tracks.0)))
    ]

-- The set after a call shows the log with the call.
pushed-Tracks :
    (l : ScoreSet) (last now : ℕ) (log : List ℕ)
    → last ≤ now
    → Tracks l last log
    → Tracks (pushed now l) now (now ∷ log)
pushed-Tracks l last now log h tracks =
    ((omega arith, All-le last now log h tracks.0), pushed-recent l last now log h tracks)

module _ (w : Windows) (self : SlidingWindowRateLimiter) (sixty : self.window_ms ≡ 60000)
    (key : WindowKey) (max_rpm : Option ℕ) (some_left : 0 < limit_of self max_rpm) where
  allow_positive :
      (now : ℕ) (s : w.State)
      → allow_request w self key max_rpm now s
        ≡ (ltb (pipeline w self key now s).0 (limit_of self max_rpm), (pipeline w self key now s).1)
  unfolding allow_request
  allow_positive now s =
      let positive : leb (limit_of self max_rpm) 0 ≡ false = ground arith in rw positive

  answers_from :
      (last : ℕ) (log times : List ℕ) (s : w.State)
      → Tracks (w.scores key s) last log
      → IsAscending last times
      → answers w self key max_rpm times s ≡ expected (limit_of self max_rpm) log times
  answers_from last log [] s tracks up = refl
  answers_from last log (now ∷ later) s tracks up =
      let s' = (pipeline w self key now s).1 in
      let shown : Tracks (w.scores key s') now (now ∷ log) =
        rw (scores-pipeline w self sixty key now s)
          (pushed-Tracks (w.scores key s) last now log up.0 tracks) in
      let rest = answers_from now (now ∷ log) later s' shown up.1 in
      rw (allow_positive now s, rest, count-pipeline w self sixty key now s, tracks.1 now up.0)

  -- From an empty set, and with a clock that does not go back, the limiter answers each call of a
  -- sequence as the description says: it passes if fewer than the limit, refused ones included,
  -- came in the 60 seconds before it. Deadlines and removals in Redis never show.
  pub answers-expected :
      (times : List ℕ) (s : w.State)
      → w.scores key s ≡ ([], none)
      → IsAscending 0 times
      → answers w self key max_rpm times s ≡ expected (limit_of self max_rpm) [] times
  answers-expected times s fresh up = answers_from 0 [] times s (rw fresh (tt, λ t h. refl)) up
