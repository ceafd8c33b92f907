-- ===== src/Breaker/Probes.antt =====
-- How many requests a breaker lets pass between two recorded results, and where that leads.
use webhook_relay_service.Breaker.Results.{failures, failures-is_open, below_keeps, counted}
use webhook_relay_service.Redis.{Redis, live}
use webhook_relay_service.Prelude.{
  List, [], arith, if◌then◌else◌, refl, ℕ, ◌+◌, ◌∷◌, ◌≢◌, ◌≤◌, ◌*◌, ◌<◌, ◌≡◌, ◌∙◌, ap, true, none,
  false, Bool, le→leb,
}
use webhook_relay_service.Breaker.Lasting.{
  IsLasting, is_open-IsLasting, phase_at, record_failure-IsLasting,
}
use webhook_relay_service.Breaker.Phases.{Phase, phase, is_open-ask, opened, half_open, closed, ask}
use webhook_relay_service.Breaker.{CircuitBreaker, is_open, record_failure, cb_failures}

-- `is_open` at each of the times, one after another: how many requests passed, and the new state.
abbrev pub asks : (r : Redis) → CircuitBreaker → List ℕ → r.State → ℕ × r.State
asks r cb [] s = (0, s)
asks r cb (t ∷ ts) s =
    let (refused, s') = is_open r cb t s in
    let (passed, s'') = asks r cb ts s' in ((if refused then 0 else 1) + passed, s'')

-- How many requests may still pass in a phase.
abbrev pub room : Phase → ℕ
room closed = 0
room (opened t tested) = if tested then 1 else 2
room (half_open tested) = if tested then 0 else 1

abbrev IsTripped : Phase → Type 0
IsTripped closed = ⊥
IsTripped (opened t tested) = Unit
IsTripped (half_open tested) = Unit

ask-room :
    (cooldown now : ℕ) (p : Phase)
    → IsTripped p
    → IsTripped (ask cooldown now p).1
      × ((if (ask cooldown now p).0 then 0 else 1) + room (ask cooldown now p).1 ≤ room p)
ask-room cooldown now closed h = absurd h
ask-room cooldown now (opened t tested) h = ground arith
ask-room cooldown now (half_open tested) h = ground arith

pub tripped : (p : Phase) → p ≢ closed → IsTripped p
tripped closed ne = ne refl
tripped (opened t tested) ne = tt
tripped (half_open tested) ne = tt

ask_cooled :
    (cooldown now t : ℕ) (tested : Bool)
    → t + cooldown * 1000 ≤ now
    → ask cooldown now (opened t tested) ≡ (false, half_open tested)
ask_cooled cooldown now t tested cool = rw (le→leb (t + cooldown * 1000) now cool)

module _ (r : Redis) (cb : CircuitBreaker) where
  -- The phase after a call of `is_open`, seen at another time.
  phase-is_open :
      (now t : ℕ) (s : r.State)
      → IsLasting r cb s
      → phase r cb now (is_open r cb t s).1 ≡ (ask cb.cooldown t (phase r cb now s)).1
  phase-is_open now t s h =
      phase_at r cb t (is_open r cb t s).1 (is_open-IsLasting r cb t s h) now
      ∙ (is_open-ask r cb t s).1
      ∙ ap (λ p. (ask cb.cooldown t p).1) (phase_at r cb now s h t)

  answer-is_open :
      (now t : ℕ) (s : r.State)
      → IsLasting r cb s
      → (is_open r cb t s).0 ≡ (ask cb.cooldown t (phase r cb now s)).0
  answer-is_open now t s h =
      (is_open-ask r cb t s).0 ∙ ap (λ p. (ask cb.cooldown t p).0) (phase_at r cb now s h t)

  asks-le-room :
      (now : ℕ) (ts : List ℕ) (s : r.State)
      → IsLasting r cb s
      → IsTripped (phase r cb now s)
      → (asks r cb ts s).0 ≤ room (phase r cb now s)
  asks-le-room now [] s h p = omega arith
  asks-le-room now (t ∷ ts) s h p =
      let step = ask-room cb.cooldown t (phase r cb now s) p in
      let next = phase-is_open now t s h in
      let rest =
        asks-le-room now ts (is_open r cb t s).1 (is_open-IsLasting r cb t s h) (rw next step.0) in
      rw (answer-is_open now t s h) (omega (arith, step.1, rest, ap room next))

  -- However often a breaker that is open or half open is asked, and whenever, if no call begins
  -- before the one before it has ended, at most `room`
  -- requests pass before a result is recorded: two from an open breaker (the one that turns it
  -- half open, and the one that takes the probe key), one where that key is left over.
  pub passes-le-room :
      (now : ℕ) (ts : List ℕ) (s : r.State)
      → IsLasting r cb s
      → phase r cb now s ≢ closed
      → (asks r cb ts s).0 ≤ room (phase r cb now s)
  passes-le-room now ts s h ne = asks-le-room now ts s h (tripped (phase r cb now s) ne)

  half_open-refuses :
      (now t : ℕ) (s : r.State)
      → IsLasting r cb s
      → phase r cb now s ≡ half_open true
      → (is_open r cb t s).0 ≡ true
  half_open-refuses now t s h e = answer-is_open now t s h ∙ ap (λ p. (ask cb.cooldown t p).0) e

  -- A failed probe whose failure count has expired leaves the breaker stuck: two requests pass an
  -- open breaker after its cooldown, both fail, the failures before them are forgotten and the
  -- threshold is above two; then the breaker refuses every request at every later time.
  pub failed_probes_stick :
      (now : ℕ) (s : r.State) {since_ms : ℕ} (t : ℕ)
      → IsLasting r cb s
      → phase r cb now s ≡ opened since_ms false
      → since_ms + cb.cooldown * 1000 ≤ now
      → live now (r.entry (cb_failures cb.url) s) ≡ none
      → 2 < cb.threshold
      → let first = is_open r cb now s in
        let second = is_open r cb now first.1 in
        let failed = record_failure r cb now (record_failure r cb now second.1) in
        (first.0 ≡ false) × (second.0 ≡ false) × ((is_open r cb t failed).0 ≡ true)
  failed_probes_stick now s {since_ms} t h e cool forgotten high =
      let s1 = (is_open r cb now s).1 in
      let s2 = (is_open r cb now s1).1 in
      let s3 = record_failure r cb now s2 in
      let l1 = is_open-IsLasting r cb now s h in
      let l2 = is_open-IsLasting r cb now s1 l1 in
      let l3 = record_failure-IsLasting r cb now s2 l2 in
      let l4 = record_failure-IsLasting r cb now s3 l3 in
      let p1 : phase r cb now s1 ≡ half_open false =
        phase-is_open now now s h
        ∙ ap (λ p. (ask cb.cooldown now p).1) e
        ∙ ap (λ a. a.1) (ask_cooled cb.cooldown now since_ms false cool) in
      let p2 : phase r cb now s2 ≡ half_open true =
        phase-is_open now now s1 l1 ∙ ap (λ p. (ask cb.cooldown now p).1) p1 in
      let f2 : failures r cb now now s2 ≡ 1 =
        rw (failures-is_open r cb now now s1, failures-is_open r cb now now s, forgotten) refl in
      let f3 : failures r cb now now s3 ≡ 2 = omega (arith, counted r cb now now s2, f2) in
      (
        answer-is_open now now s h
            ∙ ap (λ p. (ask cb.cooldown now p).0) e
            ∙ ap (λ a. a.0) (ask_cooled cb.cooldown now since_ms false cool),
        answer-is_open now now s1 l1 ∙ ap (λ p. (ask cb.cooldown now p).0) p1,
        half_open-refuses now t (record_failure r cb now s3) l4 (
            below_keeps r cb now now s3 (omega (arith, f3))
            ∙ below_keeps r cb now now s2 (omega (arith, f2))
            ∙ p2),
      )
