-- ===== src/RedisMemory.antt =====
-- A server in memory, which meets the documented behaviour of the Redis commands.
use webhook_relay_service.Prelude.{
  ◌+◌, refl, Option, none, some, [], ◌∷◌, keep, not, length, if◌then◌else◌,
}
use webhook_relay_service.Redis.{
  Redis, Windows, Entry, ScoreSet, count, live, deadline_of, counter, kept_deadline, with_deadline,
  live_set, live_scores, in_range, settled, set_deadline,
}
use webhook_relay_service.Redis.Keys.{Key, key_eq, WindowKey, window_eq}

abbrev pub memory : Redis
memory = record {
  State = Key → Option Entry;
  entry = λ k s. s k;
  get = λ now k s. live now (s k);
  set = λ now k v ex s j. if key_eq k j then some (v, deadline_of now ex) else s j;
  delete = λ k s j. if key_eq k j then none else s j;
  incr = λ now k s. (
    counter (live now (s k)) + 1,
    λ j.
        if key_eq k j
        then some (count (counter (live now (s k)) + 1), kept_deadline now (s k))
        else s j,
  );
  expire = λ now k seconds s j. if key_eq k j then with_deadline now seconds (s k) else s j;
  get_live = λ now k s. refl;
  entry-set = λ now k j v ex s. refl;
  entry-delete = λ k j s. refl;
  incr_count = λ now k s. refl;
  entry-incr = λ now k j s. refl;
  entry-expire = λ now k j seconds s. refl;
}

abbrev pub empty : Key → Option Entry
empty k = none

abbrev pub memory_windows : Windows
memory_windows = record {
  State = WindowKey → ScoreSet;
  scores = λ k s. s k;
  zremrangebyscore = λ now k hi s j.
      if window_eq k j
      then settled (keep (λ x. not (in_range hi x)) (live_set now (s k)).0, (live_set now (s k)).1)
      else s j;
  zcard = λ now k s. length (live_scores now (s k));
  zadd = λ now k x s j.
      if window_eq k j then (x ∷ (live_set now (s k)).0, (live_set now (s k)).1) else s j;
  expire = λ now k seconds s j.
      if window_eq k j then set_deadline now seconds (live_set now (s k)) else s j;
  scores-zremrangebyscore = λ now k j hi s. refl;
  zcard_lem = λ now k s. refl;
  scores-zadd = λ now k j x s. refl;
  scores-expire = λ now k j seconds s. refl;
}

abbrev pub empty_windows : WindowKey → ScoreSet
empty_windows k = ([], none)
