-- ===== src/Breaker/Phases.antt =====
-- The circuit breaker as an abstract machine over its phase, and the commands that refine it.
use webhook_relay_service.Redis.Keys.{key_eq}
use webhook_relay_service.Prelude.{
  ℕ, ◌+◌, ◌≡◌, Bool, ◌*◌, if◌then◌else◌, arith, none, codes, text_eq_refl, text_eq, leb, refl,
}
use webhook_relay_service.Redis.{Redis, Stored, live}
use webhook_relay_service.Breaker.{
  CircuitBreaker, is_open, false, cb_state, Option, cb_open_since, some, true, cb_half_tested,
  since, is_word, is_open_at, half_open_word, one_word,
}

-- What a breaker's keys say at a time.
pub data Phase : Type 0 where
  closed : Phase
  -- open since a time, and whether the key of the probe is left over from an earlier time
  opened : ℕ → Bool → Phase
  -- whether the probe has been given away
  half_open : Bool → Phase

abbrev pub is_there : Option Stored → Bool
is_there none = false
is_there (some v) = true

abbrev phase_of : Option Stored → Option Stored → Option Stored → Phase
phase_of none opened_at tested = closed
phase_of (some state) opened_at tested =
    if is_word (codes "OPEN") state
    then opened (since opened_at) (is_there tested)
    else if is_word (codes "HALF_OPEN") state
    then half_open (is_there tested)
    else closed

-- The phase of a breaker at a time.
abbrev pub phase : (r : Redis) → CircuitBreaker → ℕ → r.State → Phase
phase r cb now s =
    phase_of (live now (r.entry (cb_state cb.url) s)) (live now (r.entry (cb_open_since cb.url) s))
      (live now (r.entry (cb_half_tested cb.url) s))

-- What asking the breaker answers, and where it goes: an independent description of `is_open`.
abbrev pub ask : ℕ → ℕ → Phase → Bool × Phase
ask cooldown now closed = (false, closed)
ask cooldown now (opened t tested) =
    if leb (t + cooldown * 1000) now then (false, half_open tested) else (true, opened t tested)
ask cooldown now (half_open tested) = (tested, half_open true)

module _ (r : Redis) (cb : CircuitBreaker) (now : ℕ) (s : r.State) where
  answer_at :
      (st : Option Stored)
      → (is_open_at r cb now st s).0
        ≡ (ask cb.cooldown now (
            phase_of st
              (live now (r.entry (cb_open_since cb.url) s))
              (live now (r.entry (cb_half_tested cb.url) s)))).0
  unfolding is_open_at
  answer_at none = refl
  answer_at (some state) =
      ground
        (arith, r.get_live now (cb_open_since cb.url) s, r.get_live now (cb_half_tested cb.url) s)

  phase-half_open :
      phase r cb now (r.set now (cb_state cb.url) half_open_word none s)
      ≡ half_open (is_there (live now (r.entry (cb_half_tested cb.url) s)))
  unfolding key_eq text_eq
  phase-half_open = simp (r.entry-set, text_eq_refl)

  phase-tested :
      {st : Stored}
      → live now (r.entry (cb_state cb.url) s) ≡ some st
      → is_word (codes "OPEN") st ≡ false
      → is_word (codes "HALF_OPEN") st ≡ true
      → phase r cb now (r.set now (cb_half_tested cb.url) one_word none s) ≡ half_open true
  unfolding key_eq
  phase-tested e no_open half = simp (r.entry-set, text_eq_refl, e, no_open, half)

  phase-there :
      {st : Stored}
      → live now (r.entry (cb_state cb.url) s) ≡ some st
      → phase r cb now s
        ≡ phase_of
            (some st)
            (live now (r.entry (cb_open_since cb.url) s))
            (live now (r.entry (cb_half_tested cb.url) s))
  phase-there e = rw e

  next_at :
      (st : Option Stored)
      → live now (r.entry (cb_state cb.url) s) ≡ st
      → phase r cb now (is_open_at r cb now st s).1
        ≡ (ask cb.cooldown now (
            phase_of st
              (live now (r.entry (cb_open_since cb.url) s))
              (live now (r.entry (cb_half_tested cb.url) s)))).1
  unfolding is_open_at
  next_at none e = rw e
  next_at (some state) e = ground (
    arith,
    r.get_live now (cb_open_since cb.url) s,
    r.get_live now (cb_half_tested cb.url) s,
    phase-half_open,
    phase-tested e,
    phase-there e,
  )

  -- Asking a breaker answers and moves its phase as the abstract machine does: a closed breaker
  -- lets a request pass, an open one only after the cooldown, when it turns half open, and a half
  -- open one lets exactly the request pass that takes the probe key.
  pub is_open-ask :
      ((is_open r cb now s).0 ≡ (ask cb.cooldown now (phase r cb now s)).0)
      × (phase r cb now (is_open r cb now s).1 ≡ (ask cb.cooldown now (phase r cb now s)).1)
  unfolding is_open
  is_open-ask = (
    rw r.get_live (answer_at (live now (r.entry (cb_state cb.url) s))),
    rw r.get_live (next_at (live now (r.entry (cb_state cb.url) s)) refl),
  )
