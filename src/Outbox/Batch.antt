-- ===== src/Outbox/Batch.antt =====
-- What a poll picks up.
use webhook_relay_service.Model.Db.{Db}
use webhook_relay_service.Prelude.{
  All, Bool, Bool-cases, List, [], inl, inr, keep, leb, true, ◌∷◌, ◌≡◌, ◌≤◌, ◌&&◌, not, All-take,
  arith, false,
}
use webhook_relay_service.Outbox.{
  insert_by_time, sort_by_time, is_pending, PollWorld, batch_size, select_batch,
}
use webhook_relay_service.Model.Rows.{OutboxRecord, pending}

module _ (P : OutboxRecord → Type 0) where
  All-insert :
      (x : OutboxRecord) (xs : List OutboxRecord) → P x → All P xs → All P (insert_by_time x xs)
  All-insert x [] px h = (px, tt)
  All-insert x (y ∷ ys) px h = elim (Bool-cases (leb x.created_at y.created_at)) [
    | inl first ↦ rw first (px, h)
    | inr later ↦ rw later (h.0, All-insert x ys px h.1)
  ]

  All-sort : (xs : List OutboxRecord) → All P xs → All P (sort_by_time xs)
  All-sort [] h = tt
  All-sort (x ∷ xs) h = All-insert x (sort_by_time xs) h.0 (All-sort xs h.1)

  All-keep :
      (p : OutboxRecord → Bool) (xs : List OutboxRecord)
      → All P xs
      → All (λ x. P x × (p x ≡ true)) (keep p xs)
  All-keep p [] h = tt
  All-keep p (x ∷ xs) h = elim (Bool-cases (p x)) [
    | inl kept ↦ rw kept ((h.0, kept), All-keep p xs h.1)
    | inr dropped ↦ rw dropped (All-keep p xs h.1)
  ]

-- Oldest first.
abbrev pub IsOldestFirst : List OutboxRecord → Type 0
IsOldestFirst [] = Unit
IsOldestFirst (x ∷ xs) = All (λ y. x.created_at ≤ y.created_at) xs × IsOldestFirst xs

-- Rows of a batch: pending and not locked.
abbrev pub IsSelectable : PollWorld → OutboxRecord → Type 0
IsSelectable world x = (x.status ≡ pending) × (world.locked x.id ≡ false)

pending_status : (x : OutboxRecord) → is_pending x ≡ true → x.status ≡ pending
pending_status x h = ground arith

select-All :
    (P : OutboxRecord → Type 0) (world : PollWorld) (db : Db)
    → All P db.outbox
    → All (λ x. P x × ((is_pending x && not (world.locked x.id)) ≡ true)) (select_batch world db)
unfolding select_batch
select-All P world db h =
    All-take _ batch_size _
      (All-sort _ _ (All-keep P (λ x. is_pending x && not (world.locked x.id)) db.outbox h))

pub All-map :
    (P Q : OutboxRecord → Type 0) (xs : List OutboxRecord)
    → ((x : OutboxRecord) → P x → Q x)
    → All P xs
    → All Q xs
All-map P Q [] f h = tt
All-map P Q (x ∷ xs) f h = (f x h.0, All-map P Q xs f h.1)

-- What holds of all the rows holds of the batch, whose rows are pending besides.
pub batch-All :
    (P : OutboxRecord → Type 0) (world : PollWorld) (db : Db)
    → All P db.outbox
    → All (λ x. P x × IsSelectable world x) (select_batch world db)
batch-All P world db h =
    All-map _ _ (select_batch world db) (λ x (p, sel). (p, (ground arith, ground arith)))
      (select-All P world db h)
