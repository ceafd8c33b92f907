-- ===== src/Rbac/Examples.antt =====
-- The owner of a workspace and her token.
use webhook_relay_service.Samples.{alice, tokens, db}
use webhook_relay_service.RedisMemory.{empty, memory}
use webhook_relay_service.Rbac.Access.{IsAuthentic, current_user_iff}
use webhook_relay_service.Rbac.{decode_access_token, get_current_user, is_revoked, ok}
use webhook_relay_service.Prelude.{codes, refl, some, ◌↔◌, ◌≡◌}
use webhook_relay_service.Model.Db.{user_by_id}

current_user_iff_example :
    (get_current_user tokens memory 100000 (some empty) (codes "alice") db ≡ ok alice)
    ↔ IsAuthentic tokens memory 100000 (some empty) (codes "alice") db alice
current_user_iff_example =
    current_user_iff tokens memory 100000 (some empty) (codes "alice") db alice

is_alice : get_current_user tokens memory 100000 (some empty) (codes "alice") db ≡ ok alice
unfolding get_current_user decode_access_token is_revoked user_by_id
is_alice = refl
