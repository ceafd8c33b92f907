-- ===== src/DeliveryWorker/Overtaken.antt =====
-- Messages that the commit of another message overtakes.
use webhook_relay_service.TransformWorker.{Transformed}
use webhook_relay_service.Prelude.{
  Bool, Bool-cases, List, arith, false, inl, inr, refl, sym, true, ℕ, ◌<◌, ◌==◌, ◌≡◌, ◌≤◌,
}
use webhook_relay_service.DeliveryWorker.Offsets.{
  is_in-append, is_in-drop_offset, Reach-IsOrdered, start,
}
use webhook_relay_service.DeliveryWorker.{is_well_formed}
use mathlib.Core.Path.{subst}
use webhook_relay_service.DeliveryWorker.Loop.{
  here, ends, end_task, receives, is_in, receive, restarts, restart, Consumer, Step, Reach, next,
}

-- A message that no later state delivers: it is before what was committed and no task has it.
pub record IsLost (o : ℕ) (c : Consumer) : Type 0 where
  pub before : o < c.committed_to
  pub ordered : c.committed_to ≤ c.position
  pub not_running : is_in o c.in_flight ≡ false
  pub not_finished : is_in o c.finished ≡ false

other_offset :
    (o o' : ℕ) (xs : List ℕ) → is_in o xs ≡ false → is_in o' xs ≡ true → (o' == o) ≡ false
other_offset o o' xs absent running = elim (Bool-cases (o' == o)) [
  | inl same ↦
      (let e : o' ≡ o = ground (arith, same) in
        let found : is_in o xs ≡ true = subst (λ x. is_in x xs ≡ true) e running in absurd cc)
  | inr differs ↦ differs
]

receive-IsLost :
    (o : ℕ) (stop : Bool) (data' : Transformed) (c : Consumer)
    → IsLost o c
    → IsLost o (receive stop data' c)
unfolding receive
receive-IsLost o true data' c lost = record {
  before = lost.before;
  ordered = omega (arith, lost.ordered);
  not_running = lost.not_running;
  not_finished = lost.not_finished;
}
receive-IsLost o false data' c lost = elim (Bool-cases (is_well_formed data')) [
  | inl formed ↦ rw formed (record {
    before = lost.before;
    ordered = omega (arith, lost.ordered);
    not_running =
        is_in-append o c.position c.in_flight lost.not_running
          (ground (arith, lost.before, lost.ordered));
    not_finished = lost.not_finished;
  })
  | inr malformed ↦ rw malformed (record {
    before = lost.before;
    ordered = omega (arith, lost.ordered);
    not_running = lost.not_running;
    not_finished = lost.not_finished;
  })
]

end_task-IsLost :
    (o o' : ℕ) (crashes commits : Bool) (c : Consumer)
    → is_in o' c.in_flight ≡ true
    → IsLost o c
    → IsLost o (end_task o' crashes commits c)
unfolding end_task
end_task-IsLost o o' true commits c running lost = record {
  before = lost.before;
  ordered = lost.ordered;
  not_running = is_in-drop_offset o o' c.in_flight lost.not_running;
  not_finished = lost.not_finished;
}
end_task-IsLost o o' false true c running lost = record {
  before = omega (arith, lost.before, lost.ordered);
  ordered = omega arith;
  not_running = is_in-drop_offset o o' c.in_flight lost.not_running;
  not_finished =
      is_in-append o o' c.finished lost.not_finished
        (other_offset o o' c.in_flight lost.not_running running);
}
end_task-IsLost o o' false false c running lost = record {
  before = lost.before;
  ordered = lost.ordered;
  not_running = is_in-drop_offset o o' c.in_flight lost.not_running;
  not_finished =
      is_in-append o o' c.finished lost.not_finished
        (other_offset o o' c.in_flight lost.not_running running);
}

Step-IsLost :
    (topic : List Transformed) (o : ℕ) (c d : Consumer) → Step topic c d → IsLost o c → IsLost o d
unfolding restart
Step-IsLost topic o c d (receives stop data' going found same) lost =
    subst (IsLost o) (sym same) (receive-IsLost o stop data' c lost)
Step-IsLost topic o c d (ends o' crashes commits running same) lost =
    subst (IsLost o) (sym same) (end_task-IsLost o o' crashes commits c running lost)
Step-IsLost topic o c d (restarts same) lost = subst (IsLost o) (sym same) (record {
  before = lost.before;
  ordered = omega arith;
  not_running = refl;
  not_finished = lost.not_finished;
})

Reach-IsLost :
    (topic : List Transformed) (o : ℕ) (c d : Consumer) → Reach topic c d → IsLost o c → IsLost o d
Reach-IsLost topic o c d here lost = lost
Reach-IsLost topic o c d (next {d = m} reached taken) lost =
    Step-IsLost topic o m d taken (Reach-IsLost topic o c m reached lost)

-- Two messages are in flight, and no delivery of one of them has ended. When the delivery of the
-- other one ends and its offset is committed, and the worker starts again before anything else
-- happens, no delivery of the former ever ends, whatever follows.
pub overtaken-IsLost :
    (topic : List Transformed) (o o' : ℕ) (c d : Consumer)
    → Reach topic start c
    → is_in o c.in_flight ≡ true
    → is_in o c.finished ≡ false
    → is_in o' c.in_flight ≡ true
    → (o' == o) ≡ false
    → Reach topic (restart (end_task o' false true c)) d
    → is_in o d.finished ≡ false
unfolding restart end_task
overtaken-IsLost topic o o' c d reached running unfinished running' differs later =
    (Reach-IsLost topic o (restart (end_task o' false true c)) d later (record {
      before = (Reach-IsOrdered topic c reached).fetched o running;
      ordered = omega arith;
      not_running = refl;
      not_finished = is_in-append o o' c.finished unfinished differs;
    })).not_finished
