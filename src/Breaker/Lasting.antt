-- ===== src/Breaker/Lasting.antt =====
-- The keys that hold the phase have no deadline, so the phase does not change with time.
use webhook_relay_service.Redis.Keys.{key_eq}
use webhook_relay_service.Redis.{Entry, Redis, Stored, live}
use webhook_relay_service.Prelude.{
  Option, arith, none, refl, some, text_eq_refl, ℕ, ◌≡◌, inl, inr, Bool-cases, leb,
}
use webhook_relay_service.Breaker.Phases.{phase}
use webhook_relay_service.Breaker.{
  CircuitBreaker, half_open_word, is_open, one_word, cb_half_tested, cb_state, is_open_at,
  cb_open_since, record_failure, cb_failures,
}

-- An entry that no deadline ends.
abbrev pub Lasts : Option Entry → Type 0
Lasts none = Unit
Lasts (some (v, d)) = d ≡ none

abbrev pub IsLasting : (r : Redis) → CircuitBreaker → r.State → Type 0
IsLasting r cb s =
    Lasts (r.entry (cb_state cb.url) s)
    × Lasts (r.entry (cb_open_since cb.url) s)
    × Lasts (r.entry (cb_half_tested cb.url) s)

live_at : (e : Option Entry) (t u : ℕ) → Lasts e → live t e ≡ live u e
live_at none t u h = refl
live_at (some (v, d)) t u h = rw h

module _ (r : Redis) (cb : CircuitBreaker) (now : ℕ) (s : r.State) (h : IsLasting r cb s) where
  pub phase_at : (t : ℕ) → phase r cb t s ≡ phase r cb now s
  phase_at t = rw (
    live_at (r.entry (cb_state cb.url) s) t now h.0,
    live_at (r.entry (cb_open_since cb.url) s) t now h.1,
    live_at (r.entry (cb_half_tested cb.url) s) t now h.2,
  )

  Lasting-half_open : IsLasting r cb (r.set now (cb_state cb.url) half_open_word none s)
  unfolding key_eq
  Lasting-half_open = simp (r.entry-set, text_eq_refl) (refl, h.1, h.2)

  Lasting-tested : IsLasting r cb (r.set now (cb_half_tested cb.url) one_word none s)
  unfolding key_eq
  Lasting-tested = simp (r.entry-set, text_eq_refl) (h.0, h.1, refl)

  Lasting-at : (st : Option Stored) → IsLasting r cb (is_open_at r cb now st s).1
  unfolding is_open_at
  Lasting-at none = h
  Lasting-at (some st) = ground (arith, Lasting-half_open, Lasting-tested)

  pub is_open-IsLasting : IsLasting r cb (is_open r cb now s).1
  unfolding is_open
  is_open-IsLasting = Lasting-at (r.get now (cb_state cb.url) s)

  pub record_failure-IsLasting : IsLasting r cb (record_failure r cb now s)
  unfolding record_failure key_eq
  record_failure-IsLasting =
      elim (Bool-cases (leb cb.threshold (r.incr now (cb_failures cb.url) s).0)) [
        | inl reached ↦
            simp (reached, r.entry-set, r.entry-expire, r.entry-incr, text_eq_refl)
              (refl, refl, h.2)
        | inr below ↦ simp (below, r.entry-expire, r.entry-incr) h
      ]
