-- ===== src/Delivery/Run.antt =====
-- A whole delivery: the rows that it logs, the requests that it sends and the dead letters.
use mathlib.Core.Path.{subst}
use webhook_relay_service.Delivery.Steps.{GoesOn, step-GoesOn}
use webhook_relay_service.Breaker.Probes.{room}
use webhook_relay_service.Redis.{Redis, Windows}
use webhook_relay_service.Prelude.{
  List, [], arith, false, inr, length, refl, suc, zero, ℕ, ◌++◌, ◌+◌, ◌<◌, ◌∷◌, ◌≡◌, ◌≤◌, ◌⊎◌, ◌∙◌,
  ◌==◌, ap, ==_refl, Option, true, Bool, inl, some, ◌-◌, ◌*◌, if◌then◌else◌, not,
}
use webhook_relay_service.Model.Settings.{Settings}
use webhook_relay_service.Delivery.Rows.{Logs, numbers, step-Logs, NeverRaises}
use webhook_relay_service.Delivery.{
  Next, Outside, RouteArgs, World, finished, crashed, again, Value, max_retries, step, deliver,
  max_rate_limit_waits,
}
use mathlib.Core.List.{append_assoc, append-nil}

-- The numbers from `a` on, `k` of them.
abbrev pub count_from : ℕ → ℕ → List ℕ
count_from a zero = []
count_from a (suc k) = a ∷ count_from (a + 1) k

module _ (r : Redis) (w : Windows) (out : Outside) (settings : Settings) (event_id : ℕ)
    (route : RouteArgs) (body : Value) where
  abbrev retries : ℕ
  retries = max_retries r w out settings event_id route body

  abbrev pub Silent : Type 0
  Silent = NeverRaises r w out settings event_id route body

  -- What a delivery from an attempt on has done: it logged `k` rows, numbered one after another and
  -- below the limit of attempts (but for a first attempt, which is always made), sent at most one
  -- request more than that, and published at most one dead letter. If it returned, or if no call of
  -- Redis or the database raises, then it logged at least one row and one for each request.
  pub record Delivered (attempt : ℕ) (raised : Bool) (s s' : World r w) : Type 0 where
    pub rows : ℕ
    pub numbered : numbers s'.attempts ≡ numbers s.attempts ++ count_from attempt rows
    pub below : (attempt + rows ≤ retries) ⊎ (rows ≤ 1)
    pub sent : length s'.requests ≤ length s.requests + rows + 1
    pub complete :
        (Silent ⊎ (raised ≡ false)) → (0 < rows) × (length s'.requests ≤ length s.requests + rows)
    pub letters : length s'.dead_letters ≤ length s.dead_letters + 1
    pub same_producer : s'.producer ≡ s.producer

  -- The last call, with or without a row.
  last-Delivered :
      (attempt : ℕ) (raised has_row : Bool) (s s' : World r w)
      → numbers s'.attempts ≡ numbers s.attempts ++ (if has_row then attempt ∷ [] else [])
      → ((Silent ⊎ (raised ≡ false)) → has_row ≡ true)
      → length s'.requests ≤ length s.requests + 1
      → length s'.dead_letters ≤ length s.dead_letters + 1
      → s'.producer ≡ s.producer
      → Delivered attempt raised s s'
  last-Delivered attempt raised true s s' numbered full sent letters producer = record {
    rows = 1;
    numbered = numbered;
    below = inr (omega arith);
    sent = omega (arith, sent);
    complete = λ h. (omega arith, sent);
    letters = letters;
    same_producer = producer;
  }
  last-Delivered attempt raised false s s' numbered full sent letters producer = record {
    rows = 0;
    numbered = numbered;
    below = inr (omega arith);
    sent = omega (arith, sent);
    complete = λ h. absurd (let e = full h in cc);
    letters = letters;
    same_producer = producer;
  }

  returned-Delivered :
      (attempt : ℕ) (s s' : World r w)
      → Logs r w out settings event_id route body attempt s (s', finished)
      → Delivered attempt false s s'
  returned-Delivered attempt s s' logs =
      last-Delivered attempt false logs.has_row s s' logs.numbered (λ h. logs.full (inr refl))
        logs.sent (ground (arith, logs.letters)) logs.same_producer

  crashed-Delivered :
      (attempt : ℕ) (s s' : World r w)
      → Logs r w out settings event_id route body attempt s (s', crashed)
      → Delivered attempt true s s'
  crashed-Delivered attempt s s' logs =
      last-Delivered attempt true logs.has_row s s' logs.numbered
        (λ h. elim h [ inl never ↦ logs.full (inl never) | inr ended ↦ absurd cc ]) logs.sent
        (omega (arith, logs.letters)) logs.same_producer

  -- A call that goes on has logged its row exactly if it does not wait.
  row_of :
      (attempt attempt' waits : ℕ) (s s' : World r w)
      → (logs : Logs r w out settings event_id route body attempt s (s', again attempt' waits))
      → numbers s'.attempts
        ≡ numbers s.attempts ++ (if not (attempt == attempt') then attempt ∷ [] else [])
  row_of attempt attempt' waits s s' logs =
      logs.numbered
      ∙ ap (λ b. numbers s.attempts ++ (if b then attempt ∷ [] else [])) (logs.full (inr refl))

  wait-Delivered :
      (attempt waits : ℕ) (raised : Bool) (s s' s'' : World r w)
      → Logs r w out settings event_id route body attempt s (s', again attempt waits)
      → Delivered attempt raised s' s''
      → Delivered attempt raised s s''
  wait-Delivered attempt waits raised s s' s'' logs d =
      let few = rw ==_refl at logs.sent in
      let own_rows = row_of attempt attempt waits s s' logs in
      record {
        rows = d.rows;
        numbered =
            d.numbered
            ∙ ap (λ l. l ++ count_from attempt d.rows)
                (rw ==_refl at own_rows ∙ append-nil (numbers s.attempts));
        below = d.below;
        sent = omega (arith, few, d.sent);
        complete = λ h. let c = d.complete h in (c.0, omega (arith, few, c.1));
        letters = omega (arith, logs.letters, d.letters);
        same_producer = d.same_producer ∙ logs.same_producer;
      }

  next-Delivered :
      (attempt waits : ℕ) (raised : Bool) (s s' s'' : World r w)
      → attempt + 1 < retries
      → Logs r w out settings event_id route body attempt s (s', again (attempt + 1) waits)
      → Delivered (attempt + 1) raised s' s''
      → Delivered attempt raised s s''
  next-Delivered attempt waits raised s s' s'' less logs d =
      let other : (attempt == attempt + 1) ≡ false = ground arith in
      let one_more = rw other at logs.sent in
      let own_rows = row_of attempt (attempt + 1) waits s s' logs in
      record {
        rows = suc d.rows;
        numbered =
            d.numbered
            ∙ ap (λ l. l ++ count_from (attempt + 1) d.rows) (rw other at own_rows)
            ∙ append_assoc (numbers s.attempts) (attempt ∷ []) (count_from (attempt + 1) d.rows);
        below = inl (omega (arith, d.below, less));
        sent = omega (arith, one_more, d.sent);
        complete = λ h. let c = d.complete h in (omega arith, omega (arith, one_more, c.1));
        letters = omega (arith, logs.letters, d.letters);
        same_producer = d.same_producer ∙ logs.same_producer;
      }

  -- How many calls may still follow: at most six for each attempt that is left.
  abbrev pub calls_left : ℕ → ℕ → ℕ
  calls_left attempt waits = (retries - attempt) * 6 + (max_rate_limit_waits - waits)

  -- One call and the rest of the delivery.
  step_then :
      (attempt waits : ℕ) (s : World r w) (n : World r w × Next)
      (rest : ℕ → ℕ → World r w → Option (World r w × Bool))
      → Logs r w out settings event_id route body attempt s n
      → GoesOn r w out settings event_id route body attempt waits n.1
      → ((attempt' waits' : ℕ)
          → calls_left attempt' waits' < calls_left attempt waits
          → (result : World r w × Bool) × (rest attempt' waits' n.0 ≡ some result)
            × Delivered attempt' result.1 n.0 result.0)
      → (result : World r w × Bool) × ((elim n.1 [
        | finished ↦ some (n.0, false)
        | crashed ↦ some (n.0, true)
        | again attempt' waits' ↦ rest attempt' waits' n.0
      ])
          ≡ some result)
        × Delivered attempt result.1 s result.0
  step_then attempt waits s (s', finished) rest logs goes ih =
      ((s', false), refl, returned-Delivered attempt s s' logs)
  step_then attempt waits s (s', crashed) rest logs goes ih =
      ((s', true), refl, crashed-Delivered attempt s s' logs)
  step_then attempt waits s (s', again a' w') rest logs goes ih =
      let less : calls_left a' w' < calls_left attempt waits = omega (arith, goes) in
      let (result, e, d) = ih a' w' less in
      (
        result,
        e,
        elim goes [
          | inl (next, zero_waits, room) ↦
              next-Delivered attempt w' result.1 s s' result.0 (omega arith)
                (subst (λ a. Logs r w out settings event_id route body attempt s (s', again a w'))
                  next logs)
                (subst (λ a. Delivered a result.1 s' result.0) next d)
          | inr (same, more, left) ↦
              wait-Delivered attempt w' result.1 s s' result.0
                (subst (λ a. Logs r w out settings event_id route body attempt s (s', again a w'))
                  same logs)
                (subst (λ a. Delivered a result.1 s' result.0) same d)
        ],
      )

  -- With enough fuel a delivery ends, whatever the world does and wherever Redis or the database
  -- raises; the rows that it has logged by then are numbered one after another from its attempt on
  -- and, after the first, below the limit of attempts; it has sent at most one request more than it
  -- logged rows, and at most one dead letter. If it returned, or if nothing raises, then it has logged
  -- at least one row, and one for each request.
  pub deliver-Delivered :
      (fuel attempt waits : ℕ) (s : World r w)
      → calls_left attempt waits < fuel
      → (result : World r w × Bool) × (deliver r w out settings event_id route body fuel attempt
            waits s
          ≡ some result)
        × Delivered attempt result.1 s result.0
  unfolding deliver
  deliver-Delivered zero attempt waits s h = elim h [ ]
  deliver-Delivered (suc fuel) attempt waits s h =
      let n = step r w out settings event_id route body attempt waits s in
      step_then attempt waits s n (deliver r w out settings event_id route body fuel)
        (step-Logs r w out settings event_id route body attempt waits s)
        (step-GoesOn r w out settings event_id route body attempt waits s)
        (λ a' w' less. deliver-Delivered fuel a' w' n.0 (omega (arith, less, h)))
