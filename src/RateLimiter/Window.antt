-- ===== src/RateLimiter/Window.antt =====
-- The sorted set of a key is the log of the calls, as far as the window shows it: the deadline of
-- the set and the removal of old scores cannot be seen.
use webhook_relay_service.Redis.Keys.{WindowKey, window_eq_refl}
use webhook_relay_service.Redis.{
  ScoreSet, Windows, in_range, live_scores, live_set, set_deadline, settled,
}
use webhook_relay_service.RateLimiter.{SlidingWindowRateLimiter, pipeline, sub_ℕ}
use webhook_relay_service.Prelude.{
  All, Bool, List, [], arith, keep, length, ltb, not, refl, some, ℕ, ◌+◌, ◌∷◌, ◌≡◌, ◌≤◌, Option,
  none, ◌∙◌, ap,
}

-- Whether a call at `x` lies in the window that ends at `t`: less than 60 seconds before.
abbrev pub in_window : ℕ → ℕ → Bool
in_window t x = ltb t (x + 60000)

abbrev pub recent : ℕ → List ℕ → List ℕ
recent t = keep (in_window t)

keep_cong : (p q : ℕ → Bool) (l : List ℕ) → ((x : ℕ) → p x ≡ q x) → keep p l ≡ keep q l
keep_cong p q [] h = refl
keep_cong p q (x ∷ l) h = rw (h x, keep_cong p q l h)

-- The bound of ZREMRANGEBYSCORE keeps the window.
out_of_range : (now x : ℕ) → not (in_range (sub_ℕ now 60000) x) ≡ in_window now x
out_of_range now x = ground arith

-- A later window of a window is the later window.
pub recent-recent : (t now : ℕ) (l : List ℕ) → now ≤ t → recent t (recent now l) ≡ recent t l
recent-recent t now [] h = refl
recent-recent t now (x ∷ l) h = ground (arith, recent-recent t now l h)

pub recent_old : (t now : ℕ) (l : List ℕ) → now + 60000 ≤ t → All (λ x. x ≤ now) l → recent t l ≡ []
recent_old t now [] h a = refl
recent_old t now (x ∷ l) h a = ground (arith, recent_old t now l h a.1)

-- The scores after a pipeline.
abbrev pub pushed : ℕ → ScoreSet → ScoreSet
pushed now l = (now ∷ recent now (live_scores now l), some (now + 60000))

-- ZADD and EXPIRE on what ZREMRANGEBYSCORE left.
abbrev add_score : ℕ → ScoreSet → ScoreSet
add_score now l = set_deadline now 60 (live_set now (now ∷ (live_set now l).0, (live_set now l).1))

add_score-settled :
    (now : ℕ) (l : List ℕ) (d : Option ℕ)
    → live_set now (l, d) ≡ (l, d)
    → add_score now (settled (l, d)) ≡ (now ∷ l, some (now + 60000))
add_score-settled now [] d h = refl
add_score-settled now (x ∷ l) none h = refl
add_score-settled now (x ∷ l) (some d) h = ground arith

count-settled :
    (now : ℕ) (l : List ℕ) (d : Option ℕ)
    → live_set now (l, d) ≡ (l, d)
    → live_scores now (settled (l, d)) ≡ l
count-settled now [] d h = refl
count-settled now (x ∷ l) none h = refl
count-settled now (x ∷ l) (some d) h = ground arith

live_set-scores : (now : ℕ) (l : ScoreSet) → (live_set now l).0 ≡ live_scores now l
live_set-scores now (l, none) = refl
live_set-scores now (l, some d) = ground arith

-- The deadline that a set still has is one that is to come.
live_deadline :
    (now : ℕ) (l : ScoreSet) (m : List ℕ)
    → live_set now (m, (live_set now l).1) ≡ (m, (live_set now l).1)
live_deadline now (l, none) m = refl
live_deadline now (l, some d) m = ground arith

module _ (w : Windows) (self : SlidingWindowRateLimiter) (sixty : self.window_ms ≡ 60000)
    (key : WindowKey) (now : ℕ) (s : w.State) where
  -- The scores in the window, and their deadline.
  abbrev seen : List ℕ
  seen = recent now (live_scores now (w.scores key s))

  abbrev deadline : Option ℕ
  deadline = (live_set now (w.scores key s)).1

  scores_removed :
      w.scores key (w.zremrangebyscore now key (sub_ℕ now self.window_ms) s)
      ≡ settled (seen, deadline)
  scores_removed =
      let l = w.scores key s in
      simp (w.scores-zremrangebyscore, window_eq_refl, sixty)
        (ap (λ m. settled (m, deadline))
          (keep_cong (λ x. not (in_range (sub_ℕ now 60000) x)) (in_window now) (live_set now l).0
              (out_of_range now)
            ∙ ap (recent now) (live_set-scores now l)))

  pub scores-pipeline : w.scores key (pipeline w self key now s).1 ≡ pushed now (w.scores key s)
  unfolding pipeline
  scores-pipeline =
      simp (w.scores-expire, w.scores-zadd, window_eq_refl, scores_removed)
        (add_score-settled now seen deadline (live_deadline now (w.scores key s) seen))

  pub count-pipeline : (pipeline w self key now s).0 ≡ length seen
  unfolding pipeline
  count-pipeline =
      simp (w.zcard_lem, scores_removed)
        (ap length (count-settled now seen deadline (live_deadline now (w.scores key s) seen)))
