-- ===== src/DeliveryWorker/Offsets.antt =====
-- What a reached state of the consumer loop says of its offsets.
use webhook_relay_service.TransformWorker.{Transformed}
use webhook_relay_service.Prelude.{
  Bool, Bool-cases, List, [], any-append, arith, false, inl, inr, refl, sym, true, ℕ, ◌++◌, ◌<◌,
  ◌==◌, ◌||◌, ◌∙◌, ◌∷◌, ◌≡◌, ◌≤◌, ◌⊎◌,
}
use webhook_relay_service.DeliveryWorker.{is_well_formed}
use mathlib.Core.Path.{subst}
use webhook_relay_service.DeliveryWorker.Loop.{
  here, Consumer, restart, ends, is_in, restarts, receive, receives, end_task, drop_offset, Reach,
  next,
}

pub is_in-drop_offset :
    (o o' : ℕ) (xs : List ℕ) → is_in o xs ≡ false → is_in o (drop_offset o' xs) ≡ false
is_in-drop_offset o o' [] h = refl
is_in-drop_offset o o' (x ∷ xs) h = ground (arith, h, is_in-drop_offset o o' xs)

pub is_in-append :
    (o o' : ℕ) (xs : List ℕ)
    → is_in o xs ≡ false
    → (o' == o) ≡ false
    → is_in o (xs ++ o' ∷ []) ≡ false
is_in-append o o' xs h differs = any-append (λ x. x == o) xs (o' ∷ []) ∙ rw h (rw differs refl)

abbrev pub start : Consumer
start = record { position = 0; committed_to = 0; stopped = false; in_flight = []; finished = [] }

-- What a reached state says of its offsets.
pub record IsOrdered (c : Consumer) : Type 0 where
  pub behind : c.committed_to ≤ c.position
  pub fetched : (o : ℕ) → is_in o c.in_flight ≡ true → o < c.position

is_in-or :
    (o o' : ℕ) (xs : List ℕ) → is_in o (xs ++ o' ∷ []) ≡ true → (is_in o xs ≡ true) ⊎ (o' ≡ o)
is_in-or o o' xs h = elim (Bool-cases (is_in o xs)) [
  | inl there ↦ inl there
  | inr absent ↦
      (let last : (false || ((o' == o) || false)) ≡ true =
          rw absent at (sym (any-append (λ x. x == o) xs (o' ∷ [])) ∙ h) in
        inr (ground (arith, last)))
]

is_in-kept : (o o' : ℕ) (xs : List ℕ) → is_in o (drop_offset o' xs) ≡ true → is_in o xs ≡ true
is_in-kept o o' [] h = h
is_in-kept o o' (x ∷ xs) h = ground (arith, h, is_in-kept o o' xs)

receive-IsOrdered :
    (stop : Bool) (data' : Transformed) (c : Consumer)
    → IsOrdered c
    → IsOrdered (receive stop data' c)
unfolding receive
receive-IsOrdered true data' c ordered = record {
  behind = omega (arith, ordered.behind);
  fetched = λ o h. omega (arith, ordered.fetched o h);
}
receive-IsOrdered false data' c ordered = elim (Bool-cases (is_well_formed data')) [
  | inl formed ↦ rw formed (record {
    behind = omega (arith, ordered.behind);
    fetched = λ o h. elim (is_in-or o c.position c.in_flight h) [
      | inl old ↦ omega (arith, ordered.fetched o old)
      | inr new ↦ omega (arith, new)
    ];
  })
  | inr malformed ↦ rw malformed (record {
    behind = omega (arith, ordered.behind);
    fetched = λ o h. omega (arith, ordered.fetched o h);
  })
]

end_task-IsOrdered :
    (o' : ℕ) (crashes commits : Bool) (c : Consumer)
    → IsOrdered c
    → IsOrdered (end_task o' crashes commits c)
unfolding end_task
end_task-IsOrdered o' true commits c ordered = record {
  behind = ordered.behind;
  fetched = λ o h. ordered.fetched o (is_in-kept o o' c.in_flight h);
}
end_task-IsOrdered o' false true c ordered = record {
  behind = omega arith;
  fetched = λ o h. ordered.fetched o (is_in-kept o o' c.in_flight h);
}
end_task-IsOrdered o' false false c ordered = record {
  behind = ordered.behind;
  fetched = λ o h. ordered.fetched o (is_in-kept o o' c.in_flight h);
}

pub Reach-IsOrdered : (topic : List Transformed) (c : Consumer) → Reach topic start c → IsOrdered c
unfolding restart
Reach-IsOrdered topic c here = record { behind = omega arith; fetched = λ o h. absurd cc }
Reach-IsOrdered topic c (next {d = m} reached (receives stop data' going found same)) =
    subst IsOrdered (sym same) (receive-IsOrdered stop data' m (Reach-IsOrdered topic m reached))
Reach-IsOrdered topic c (next {d = m} reached (ends o crashes commits running same)) =
    subst IsOrdered (sym same)
      (end_task-IsOrdered o crashes commits m (Reach-IsOrdered topic m reached))
Reach-IsOrdered topic c (next {d = m} reached (restarts same)) =
    subst IsOrdered (sym same) (record { behind = omega arith; fetched = λ o h. absurd cc })
