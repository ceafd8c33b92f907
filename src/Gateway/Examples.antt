-- ===== src/Gateway/Examples.antt =====
-- A signed webhook with a key, on servers in memory.
use webhook_relay_service.Redis.Keys.{key_eq, window_eq}
use webhook_relay_service.Samples.{codecs, endpoint, gate, moment, webhook, db}
use webhook_relay_service.RedisMemory.{memory, memory_windows}
use webhook_relay_service.Redis.{set_nx}
use webhook_relay_service.RateLimiter.{allow_request, new_limiter, pipeline}
use webhook_relay_service.Prelude.{
  [], arith, codes, false, if◌then◌else◌, length, ltb, refl, some, text_eq, true, ◌++◌, ◌∷◌, ◌≡◌,
}
use webhook_relay_service.Model.Settings.{default_settings}
use webhook_relay_service.Model.Json.{dict, end}
use webhook_relay_service.Model.Db.{endpoint_by_id}
use webhook_relay_service.Http.{Result, http_error}
use webhook_relay_service.Gateway.Storage.{Handled, receive-Handled}
use webhook_relay_service.Gateway.Idempotency.{repeat-duplicate}
use webhook_relay_service.Gateway.Checks.{concat, read_limited_body-concat, signed_header}
use webhook_relay_service.Gateway.{
  Gate, Moment, Reply, accepted, admit, after_prefix, check_digest, check_rate, check_schema,
  check_signature, claim_key, client_ip_allowed, compare_digest, duplicate, read_limited_body,
  receive_webhook, store_event, ok,
}

abbrev receive :
    Moment
    → Gate memory memory_windows codecs default_settings
    → Result Reply × Gate memory memory_windows codecs default_settings
receive at s = receive_webhook memory memory_windows codecs default_settings at webhook s

receive-Handled_example :
    Handled memory memory_windows codecs default_settings
      (moment 100000 true)
      webhook
      db
      gate.windows
      (receive (moment 100000 true) gate)
receive-Handled_example =
    receive-Handled memory memory_windows codecs default_settings (moment 100000 true) webhook gate

is_accepted : (receive (moment 100000 true) gate).0 ≡ ok (accepted 11)
unfolding receive_webhook admit read_limited_body check_rate allow_request pipeline window_eq key_eq
    check_signature check_digest after_prefix compare_digest check_schema claim_key set_nx
    store_event endpoint_by_id client_ip_allowed new_limiter text_eq
is_accepted = refl

-- The commit of the first webhook failed.
abbrev lost : Gate memory memory_windows codecs default_settings
lost = (receive (moment 100000 false) gate).1

admits_first :
    (admit memory memory_windows codecs default_settings (moment 100000 false) webhook gate).0
    ≡ ok (endpoint, dict end)
unfolding admit read_limited_body check_rate allow_request pipeline window_eq key_eq check_signature
    check_digest after_prefix compare_digest check_schema endpoint_by_id client_ip_allowed
    new_limiter text_eq
admits_first = refl

admits_again :
    (admit memory memory_windows codecs default_settings (moment 100500 true) webhook lost).0
    ≡ ok (endpoint, dict end)
unfolding receive_webhook admit read_limited_body check_rate allow_request pipeline window_eq key_eq
    check_signature check_digest after_prefix compare_digest check_schema claim_key set_nx
    store_event endpoint_by_id client_ip_allowed new_limiter text_eq
admits_again = refl

repeat-duplicate_example :
    ((receive (moment 100500 true) lost).0 ≡ ok duplicate)
    × ((receive (moment 100500 true) lost).1.db ≡ lost.db)
repeat-duplicate_example =
    repeat-duplicate memory memory_windows codecs default_settings (moment 100000 false)
      (moment 100500 true) webhook webhook gate lost endpoint endpoint (dict end) (dict end)
      admits_first refl refl refl admits_again refl refl (omega arith)

read_limited_body-concat_example : read_limited_body 3 [] (codes "ab" ∷ codes "cd" ∷ []) ≡ (
    if ltb 3 (length ([] ++ concat (codes "ab" ∷ codes "cd" ∷ [])))
    then http_error 413 "request body too large"
    else ok ([] ++ concat (codes "ab" ∷ codes "cd" ∷ [])))
read_limited_body-concat_example =
    read_limited_body-concat 3 [] (codes "ab" ∷ codes "cd" ∷ []) (omega arith)

passes : check_signature codecs endpoint (codes "{}") (some (codes "sha256=s3cret")) ≡ ok tt
unfolding check_signature check_digest after_prefix compare_digest text_eq
passes = refl

signed_header_example : some (codes "sha256=s3cret") ≡ some (codes "sha256=" ++ codes "s3cret")
signed_header_example =
    signed_header codecs endpoint (codes "{}") (some (codes "sha256=s3cret")) refl passes
