-- ===== src/Outbox/Published.antt =====
-- What a poll publishes when nothing disturbs it.
use webhook_relay_service.Prelude.{
  Bool, List, [], any, any-keep, ap, arith, false, keep, length, map, not, refl, suc, sym, take,
  zero, ℕ, ◌&&◌, ◌++◌, ◌+◌, ◌||◌, ◌∙◌, ◌∷◌, ◌≡◌, ◌≤◌, if◌then◌else◌, true,
}
use webhook_relay_service.Outbox.{
  PollWorld, Relay, batch_size, insert_by_time, is_pending, message_of, poll, relay_batch,
  relay_record, select_batch, sort_by_time, none,
}
use webhook_relay_service.Model.Rows.{OutboxRecord}
use webhook_relay_service.Model.Db.{Db}
use mathlib.Core.List.{append-nil, append_assoc}

-- No row is locked, the stop flag stays clear, and every publish goes through.
pub record IsUndisturbed (world : PollWorld) : Type 0 where
  pub free : (id : ℕ) → world.locked id ≡ false
  pub going : (n : ℕ) → world.stopped n ≡ false
  pub sends : (n : ℕ) → world.publish_error n ≡ none

either_way :
    (commits : Bool) (s s' : Relay)
    → (if commits then s' else record s { messages = s'.messages }).messages ≡ s'.messages
either_way true s s' = refl
either_way false s s' = refl

module _ (world : PollWorld) (undisturbed : IsUndisturbed world) where
  batch-messages :
      (n : ℕ) (xs : List OutboxRecord) (s : Relay)
      → (relay_batch world n xs s).messages ≡ s.messages ++ map message_of xs
  unfolding relay_batch relay_record
  batch-messages n [] s = sym (append-nil s.messages)
  batch-messages n (x ∷ xs) s = rw (undisturbed.going n) (
      rw (undisturbed.sends n) (
        batch-messages (n + 1) xs (relay_record none x s)
        ∙ append_assoc s.messages (message_of x ∷ []) (map message_of xs)))

  pub poll-messages :
      (s : Relay) → (poll world s).messages ≡ s.messages ++ map message_of (select_batch world s.db)
  unfolding poll
  poll-messages s =
      either_way world.commits s (relay_batch world 0 (select_batch world s.db) s)
      ∙ batch-messages 0 (select_batch world s.db) s

any-insert_by_time :
    (p : OutboxRecord → Bool) (x : OutboxRecord) (xs : List OutboxRecord)
    → any p (insert_by_time x xs) ≡ (p x || any p xs)
any-insert_by_time p x [] = refl
any-insert_by_time p x (y ∷ ys) = ground (arith, any-insert_by_time p x ys)

any-sort_by_time :
    (p : OutboxRecord → Bool) (xs : List OutboxRecord) → any p (sort_by_time xs) ≡ any p xs
any-sort_by_time p [] = refl
any-sort_by_time p (x ∷ xs) =
    any-insert_by_time p x (sort_by_time xs) ∙ ap (λ b. p x || b) (any-sort_by_time p xs)

length-insert_by_time :
    (x : OutboxRecord) (xs : List OutboxRecord) → length (insert_by_time x xs) ≡ length xs + 1
length-insert_by_time x [] = refl
length-insert_by_time x (y ∷ ys) = ground (arith, length-insert_by_time x ys)

length-sort_by_time : (xs : List OutboxRecord) → length (sort_by_time xs) ≡ length xs
length-sort_by_time [] = refl
length-sort_by_time (x ∷ xs) =
    omega (arith, length-insert_by_time x (sort_by_time xs), length-sort_by_time xs)

take-all : (n : ℕ) (xs : List OutboxRecord) → length xs ≤ n → take n xs ≡ xs
take-all zero [] h = refl
take-all zero (x ∷ xs) h = absurd (omega (arith, h))
take-all (suc n) [] h = refl
take-all (suc n) (x ∷ xs) h = ap (λ ys. x ∷ ys) (take-all n xs (omega (arith, h)))

abbrev pub is_selectable : PollWorld → OutboxRecord → Bool
is_selectable world x = is_pending x && not (world.locked x.id)

-- Where at most ten rows can be selected, the batch has them all.
pub any-select_batch :
    (world : PollWorld) (db : Db) (p : OutboxRecord → Bool)
    → length (keep (is_selectable world) db.outbox) ≤ batch_size
    → any p (select_batch world db) ≡ any (λ x. is_selectable world x && p x) db.outbox
unfolding select_batch
any-select_batch world db p few =
    let rows = keep (is_selectable world) db.outbox in
    ap (any p)
      (take-all batch_size (sort_by_time rows) (omega (arith, length-sort_by_time rows, few)))
    ∙ any-sort_by_time p rows
    ∙ any-keep p (is_selectable world) db.outbox
