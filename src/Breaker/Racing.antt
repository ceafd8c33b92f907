-- ===== src/Breaker/Racing.antt =====
-- app/delivery/circuit_breaker.py, is_open, command by command: other callers may run between two
-- commands, since each of them is awaited.
use webhook_relay_service.Prelude.{
  Bool, List, Option, [], codes, false, if◌then◌else◌, leb, le→leb, none, not, refl, some, suc,
  true, zero, ℕ, ◌*◌, ◌+◌, ◌∷◌, ◌≡◌, ◌≤◌, text_eq, ap,
}
use webhook_relay_service.Redis.{Redis, Stored, set_nx, time}
use webhook_relay_service.Redis.Keys.{cb_half_tested, cb_open_since, cb_state}
use webhook_relay_service.Breaker.{
  CircuitBreaker, half_open_word, is_word, one_word, open_word, since,
}

-- A call of `is_open`: the command that it awaits next, or its answer.
pub data Caller : Type 0 where
  reads_state reads_since sets_half_open tests : Caller
  answered : Bool → Caller

module _ (r : Redis) (cb : CircuitBreaker) (now : ℕ) where
  abbrev after_state : Option Stored → Caller
  after_state none = answered false
  after_state (some state) =
      if is_word (codes "OPEN") state
      then reads_since
      else if is_word (codes "HALF_OPEN") state
      then tests
      else answered false

  -- The command, and the code up to the next one.
  unfoldable pub resume : Caller → r.State → Caller × r.State
  resume reads_state s = (after_state (r.get now (cb_state cb.url) s), s)
  resume reads_since s =
      if leb (since (r.get now (cb_open_since cb.url) s) + cb.cooldown * 1000) now
      then (sets_half_open, s)
      else (answered true, s)
  resume sets_half_open s = (answered false, r.set now (cb_state cb.url) half_open_word none s)
  resume tests s =
      let (tested, s') = set_nx r now (cb_half_tested cb.url) one_word none s in
      (answered (not tested), s')
  resume (answered b) s = (answered b, s)

  -- A call that runs alone: it takes at most three commands.
  abbrev pub alone : ℕ → Caller → r.State → Caller × r.State
  alone zero c s = (c, s)
  alone (suc n) c s = let (c', s') = resume c s in alone n c' s'

  -- Several calls at once, each by one command, in turn.
  unfoldable pub all_resume : List Caller → r.State → List Caller × r.State
  all_resume [] s = ([], s)
  all_resume (c ∷ cs) s =
      let (c', s') = resume c s in let (cs', s'') = all_resume cs s' in (c' ∷ cs', s'')

  -- A number of calls at the same command.
  abbrev pub crowd : ℕ → Caller → List Caller
  crowd zero c = []
  crowd (suc n) c = c ∷ crowd n c

  crowd_reads :
      (c d : Caller) (s : r.State)
      → resume c s ≡ (d, s)
      → (n : ℕ) → all_resume (crowd n c) s ≡ (crowd n d, s)
  unfolding all_resume
  crowd_reads c d s same zero = refl
  crowd_reads c d s same (suc n) = rw (same, all_resume) (rw (crowd_reads c d s same n) refl)

  crowd_passes :
      (n : ℕ) (s : r.State) → (all_resume (crowd n sets_half_open) s).0 ≡ crowd n (answered false)
  unfolding all_resume resume
  crowd_passes zero s = refl
  crowd_passes (suc n) s =
      ap (λ cs. answered false ∷ cs)
        (crowd_passes n (r.set now (cb_state cb.url) half_open_word none s))

  -- However many calls ask an open breaker after its cooldown at once: if each of them is at the same
  -- command as the others (all read the state, then all read the time, then all go on), then all of
  -- them let their requests pass.
  pub racing-pass :
      (n t : ℕ) (s : r.State)
      → r.get now (cb_state cb.url) s ≡ some open_word
      → r.get now (cb_open_since cb.url) s ≡ some (time t)
      → t + cb.cooldown * 1000 ≤ now
      → let first = all_resume (crowd n reads_state) s in
        let second = all_resume first.0 first.1 in
        (all_resume second.0 second.1).0 ≡ crowd n (answered false)
  unfolding resume text_eq
  racing-pass n t s opened stored cool =
      let one = crowd_reads reads_state reads_since s (rw opened refl) n in
      let two =
        crowd_reads reads_since sets_half_open s
          (rw stored (rw (le→leb (t + cb.cooldown * 1000) now cool) refl)) n in
      rw (one, two) (crowd_passes n s)
