-- ===== src/DeliveryWorker/Loop.antt =====
-- workers/delivery_worker.py: the consumer loop, with a task for each message, on one partition.
-- `consumer.commit()` commits the position of the consumer, and a consumer that starts goes on at
-- the position that was committed last.
use webhook_relay_service.TransformWorker.{Transformed}
use webhook_relay_service.Prelude.{
  Bool, List, [], any, false, if◌then◌else◌, nth, some, true, ℕ, ◌++◌, ◌+◌, ◌==◌, ◌∷◌, ◌≡◌,
}
use webhook_relay_service.DeliveryWorker.{is_well_formed}

pub record Consumer : Type 0 where
  pub position : ℕ
  pub committed_to : ℕ
  pub stopped : Bool
  -- the offsets whose tasks run, and those whose delivery ended
  pub in_flight : List ℕ
  pub finished : List ℕ

abbrev pub is_in : ℕ → List ℕ → Bool
is_in o offsets = any (λ x. x == o) offsets

-- `pending.discard`.
abbrev pub drop_offset : ℕ → List ℕ → List ℕ
drop_offset o [] = []
drop_offset o (x ∷ xs) = let rest = drop_offset o xs in if x == o then rest else x ∷ rest

-- One round of `async for`: the message is fetched before the stop flag is tested.
unfoldable pub receive : Bool → Transformed → Consumer → Consumer
receive stop data' c =
    let fetched = record c { position = c.position + 1 } in
    if stop
    then record fetched { stopped = true }
    else if is_well_formed data'
    then record fetched { in_flight = c.in_flight ++ c.position ∷ [] }
    else fetched

-- A task that ended: the delivery raised, or it ended and the commit goes through or not.
unfoldable pub end_task : ℕ → Bool → Bool → Consumer → Consumer
end_task o crashes commits c =
    let left = record c { in_flight = drop_offset o c.in_flight } in
    if crashes
    then left
    else (let delivered = record left { finished = c.finished ++ o ∷ [] } in
        if commits then record delivered { committed_to = c.position } else delivered)

-- The process ends, whatever its tasks did, and another one starts.
unfoldable pub restart : Consumer → Consumer
restart c = record c { position = c.committed_to; stopped = false; in_flight = [] }

pub data Step (topic : List Transformed) (c d : Consumer) : Type 0 where
  receives :
      (stop : Bool) (data' : Transformed)
      → c.stopped ≡ false
      → nth c.position topic ≡ some data'
      → d ≡ receive stop data' c
      → Step topic c d
  ends :
      (o : ℕ) (crashes commits : Bool)
      → is_in o c.in_flight ≡ true
      → d ≡ end_task o crashes commits c
      → Step topic c d
  restarts : d ≡ restart c → Step topic c d

pub data Reach (topic : List Transformed) (c : Consumer) : Consumer → Type 0 where
  here : Reach topic c c
  next : {d e : Consumer} → Reach topic c d → Step topic d e → Reach topic c e
