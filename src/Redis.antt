-- ===== src/Redis.antt =====
-- Redis, as the program relies on it: the commands that it sends, with their documented effect on
-- the key that they name. Every command takes the server's time, in milliseconds; a key whose
-- deadline has passed does not exist. A `Redis` is a parameter of what uses it.
pub mod Keys
use webhook_relay_service.Prelude.{
  ℕ, ◌+◌, ◌*◌, ◌≡◌, Bool, true, false, Option, none, some, List, [], ◌∷◌, Text, keep, not, leb, ltb,
  length, if◌then◌else◌,
}
use webhook_relay_service.Model.Json.{ℤ, pos, negsuc}
use Keys.{Key, key_eq, WindowKey, window_eq}

-- What a string key holds: a text, an integer counter, or `str(time.time())`.
pub data Stored : Type 0 where
  text : Text → Stored
  count : ℕ → Stored
  time : ℕ → Stored

-- A value with its deadline, if it has one.
abbrev pub Entry : Type 0
Entry = Stored × Option ℕ

abbrev pub live_entry : ℕ → Entry → Option Stored
live_entry now (v, none) = some v
live_entry now (v, some deadline) = if ltb now deadline then some v else none

abbrev pub live : ℕ → Option Entry → Option Stored
live now none = none
live now (some e) = live_entry now e

abbrev pub deadline_of : ℕ → Option ℕ → Option ℕ
deadline_of now none = none
deadline_of now (some seconds) = some (now + seconds * 1000)

abbrev pub counter : Option Stored → ℕ
counter (some (count n)) = n
counter _ = 0

-- The deadline of a key that exists.
abbrev pub kept_deadline : ℕ → Option Entry → Option ℕ
kept_deadline now none = none
kept_deadline now (some (v, none)) = none
kept_deadline now (some (v, some d)) = if ltb now d then some d else none

-- EXPIRE on a key that exists sets its deadline; on another it does nothing.
abbrev pub with_deadline : ℕ → ℕ → Option Entry → Option Entry
with_deadline now seconds e = elim (live now e) [
  | none ↦ none
  | some v ↦ some (v, some (now + seconds * 1000))
]

-- The string commands.
pub record Redis : Type 1 where
  pub State : Type 0
  -- the entry that the server keeps for a key
  pub entry : Key → State → Option Entry
  pub get : ℕ → Key → State → Option Stored
  -- `set(key, value, ex=seconds)`
  pub set : ℕ → Key → Stored → Option ℕ → State → State
  pub delete : Key → State → State
  pub incr : ℕ → Key → State → ℕ × State
  pub expire : ℕ → Key → ℕ → State → State
  pub get_live : (now : ℕ) (k : Key) (s : State) → get now k s ≡ live now (entry k s)
  pub entry-set :
      (now : ℕ) (k j : Key) (v : Stored) (ex : Option ℕ) (s : State)
      → entry j (set now k v ex s)
        ≡ (if key_eq k j then some (v, deadline_of now ex) else entry j s)
  pub entry-delete :
      (k j : Key) (s : State) → entry j (delete k s) ≡ (if key_eq k j then none else entry j s)
  -- a missing key counts from 0, and a deadline stays
  pub incr_count :
      (now : ℕ) (k : Key) (s : State) → (incr now k s).0 ≡ counter (live now (entry k s)) + 1
  pub entry-incr :
      (now : ℕ) (k j : Key) (s : State)
      → entry j (incr now k s).1 ≡ (
          if key_eq k j
          then some (count (counter (live now (entry k s)) + 1), kept_deadline now (entry k s))
          else entry j s)
  pub entry-expire :
      (now : ℕ) (k j : Key) (seconds : ℕ) (s : State)
      → entry j (expire now k seconds s)
        ≡ (if key_eq k j then with_deadline now seconds (entry k s) else entry j s)

-- `set(key, value, nx=True, ex=seconds)` and `setnx`: whether the key was set, and the new state.
module _ (r : Redis) where
  open r use {State, get, set}

  unfoldable pub set_nx : ℕ → Key → Stored → Option ℕ → State → Bool × State
  set_nx now k v ex s = elim (get now k s) [ none ↦ (true, set now k v ex s) | some _ ↦ (false, s) ]

-- A sorted set: the scores of its members, which are fresh UUIDs, and its deadline.
abbrev pub ScoreSet : Type 0
ScoreSet = List ℕ × Option ℕ

abbrev pub live_scores : ℕ → ScoreSet → List ℕ
live_scores now (l, none) = l
live_scores now (l, some d) = if ltb now d then l else []

abbrev pub live_set : ℕ → ScoreSet → ScoreSet
live_set now (l, none) = (l, none)
live_set now (l, some d) = if ltb now d then (l, some d) else ([], none)

-- A score in the range from 0 to a bound.
abbrev pub in_range : ℤ → ℕ → Bool
in_range (pos hi) x = leb x hi
in_range (negsuc _) x = false

-- A set with no member left is no longer there, and its deadline with it.
abbrev pub settled : ScoreSet → ScoreSet
settled ([], d) = ([], none)
settled (x ∷ l, d) = (x ∷ l, d)

abbrev pub set_deadline : ℕ → ℕ → ScoreSet → ScoreSet
set_deadline now seconds ([], d) = ([], none)
set_deadline now seconds (x ∷ l, d) = (x ∷ l, some (now + seconds * 1000))

-- The sorted-set commands.
pub record Windows : Type 1 where
  pub State : Type 0
  pub scores : WindowKey → State → ScoreSet
  -- `zremrangebyscore(key, 0, hi)`
  pub zremrangebyscore : ℕ → WindowKey → ℤ → State → State
  pub zcard : ℕ → WindowKey → State → ℕ
  -- `zadd(key, {str(uuid.uuid4()): score})`: the member is new
  pub zadd : ℕ → WindowKey → ℕ → State → State
  pub expire : ℕ → WindowKey → ℕ → State → State
  pub scores-zremrangebyscore :
      (now : ℕ) (k j : WindowKey) (hi : ℤ) (s : State)
      → scores j (zremrangebyscore now k hi s) ≡ (
          if window_eq k j
          then settled (
            keep (λ x. not (in_range hi x)) (live_set now (scores k s)).0,
            (live_set now (scores k s)).1,
          )
          else scores j s)
  pub zcard_lem :
      (now : ℕ) (k : WindowKey) (s : State) → zcard now k s ≡ length (live_scores now (scores k s))
  pub scores-zadd :
      (now : ℕ) (k j : WindowKey) (x : ℕ) (s : State)
      → scores j (zadd now k x s) ≡ (
          if window_eq k j
          then (x ∷ (live_set now (scores k s)).0, (live_set now (scores k s)).1)
          else scores j s)
  pub scores-expire :
      (now : ℕ) (k j : WindowKey) (seconds : ℕ) (s : State)
      → scores j (expire now k seconds s) ≡ (
          if window_eq k j
          then set_deadline now seconds (live_set now (scores k s))
          else scores j s)
