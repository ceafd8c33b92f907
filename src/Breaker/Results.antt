-- ===== src/Breaker/Results.antt =====
-- What `record_success` and `record_failure` do to the phase, at every later time.
use webhook_relay_service.Redis.Keys.{key_eq}
use webhook_relay_service.Redis.{Redis, counter, live, Stored, kept_deadline, Entry, with_deadline}
use webhook_relay_service.Prelude.{
  Bool-cases, if◌then◌else◌, inl, inr, leb, text_eq, text_eq_refl, ℕ, ◌+◌, ◌≡◌, some, none, Option,
  refl, arith, ◌<◌, ◌∙◌, false,
}
use webhook_relay_service.Breaker.Phases.{is_there, phase, opened, closed}
use webhook_relay_service.Breaker.{
  CircuitBreaker, record_failure, record_success, cb_half_tested, cb_failures, is_open, is_open_at,
  cb_state, half_open_word, one_word, count,
}

-- INCR and EXPIRE leave the count that INCR returns.
counted_at :
    (now : ℕ) (e : Option Entry)
    → counter (
        live now
          (with_deadline now 60 (some (count (counter (live now e) + 1), kept_deadline now e))))
      ≡ counter (live now e) + 1
counted_at now none = ground arith
counted_at now (some (v, none)) = ground arith
counted_at now (some (v, some d)) = ground arith

module _ (r : Redis) (cb : CircuitBreaker) (now t : ℕ) (s : r.State) where
  -- A success closes the breaker, whatever its keys held.
  pub phase-record_success : phase r cb t (record_success r cb now s) ≡ closed
  unfolding record_success key_eq
  phase-record_success = simp (r.entry-delete, text_eq_refl)

  -- The failures in the last minute, the new one included.
  abbrev pub failures : ℕ
  failures = counter (live now (r.entry (cb_failures cb.url) s)) + 1

  -- A failure that reaches the threshold opens the breaker at its time and leaves the probe key as
  -- it was; a failure below the threshold leaves the phase alone.
  pub phase-record_failure : phase r cb t (record_failure r cb now s) ≡ (
      if leb cb.threshold failures
      then opened now (is_there (live t (r.entry (cb_half_tested cb.url) s)))
      else phase r cb t s)
  unfolding record_failure key_eq text_eq
  phase-record_failure = elim (Bool-cases (leb cb.threshold failures)) [
    | inl reached ↦
        simp (r.incr_count, r.entry-set, r.entry-expire, r.entry-incr, text_eq_refl, reached)
    | inr below ↦ simp (r.incr_count, r.entry-expire, r.entry-incr, below)
  ]

  pub below_keeps :
      failures < cb.threshold → phase r cb t (record_failure r cb now s) ≡ phase r cb t s
  below_keeps low =
      let below : leb cb.threshold failures ≡ false = ground arith in
      phase-record_failure ∙ rw below

  -- Right after a failure the count is there.
  pub counted :
      counter (live now (r.entry (cb_failures cb.url) (record_failure r cb now s))) ≡ failures
  unfolding record_failure key_eq text_eq
  counted = elim (Bool-cases (leb cb.threshold failures)) [
    | inl reached ↦
        simp (r.incr_count, r.entry-set, r.entry-expire, r.entry-incr, text_eq_refl, reached)
          (counted_at now (r.entry (cb_failures cb.url) s))
    | inr below ↦
        simp (r.incr_count, r.entry-expire, r.entry-incr, below, text_eq_refl)
          (counted_at now (r.entry (cb_failures cb.url) s))
  ]

  failures_at :
      (st : Option Stored)
      → r.entry (cb_failures cb.url) (is_open_at r cb now st s).1 ≡ r.entry (cb_failures cb.url) s
  unfolding is_open_at key_eq
  failures_at none = refl
  failures_at (some st) = ground (
    arith,
    r.entry-set now (cb_state cb.url) (cb_failures cb.url) half_open_word none s,
    r.entry-set now (cb_half_tested cb.url) (cb_failures cb.url) one_word none s,
  )

  -- Asking leaves the failure count alone.
  pub failures-is_open :
      r.entry (cb_failures cb.url) (is_open r cb now s).1 ≡ r.entry (cb_failures cb.url) s
  unfolding is_open
  failures-is_open = failures_at (r.get now (cb_state cb.url) s)
