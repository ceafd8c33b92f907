-- ===== src/Auth/Examples.antt =====
-- A registration, and a logout, with Redis in memory.
use webhook_relay_service.Workspaces.{Commit}
use webhook_relay_service.Samples.{tokens, db}
use webhook_relay_service.RedisMemory.{empty, memory}
use webhook_relay_service.Redis.Keys.{revoked}
use webhook_relay_service.Redis.{text}
use webhook_relay_service.Rbac.{Claims, decode_access_token, get_current_user}
use webhook_relay_service.Prelude.{arith, codes, none, refl, some, text_eq, true, ◌≡◌}
use webhook_relay_service.Model.Settings.{default_settings}
use webhook_relay_service.Http.{http_error}
use webhook_relay_service.Auth.Revocation.{logout-refused}
use webhook_relay_service.Auth.Accounts.{Registered, register-Registered}
use webhook_relay_service.Auth.{Desk, Passwords, UserCreate, logout, register}

abbrev request_time : Commit
request_time = record { now = 100000; new_id = 7; commits = true }

abbrev passwords : Passwords
passwords = record {
  hash_password = λ t. t;
  verify_password = λ plain hashed. text_eq plain hashed;
}

abbrev carol : UserCreate
carol = record {
  email = codes " Carol@shop.example";
  password = codes "longenough";
  display_name = codes "Carol";
}

abbrev desk : Desk memory default_settings
desk = record { db = db; redis = some empty }

register-Registered_example :
    Registered memory default_settings request_time passwords 21 carol db
      (register memory default_settings request_time passwords (λ id. codes "7") 21 none carol desk)
register-Registered_example =
    register-Registered memory default_settings request_time passwords (λ id. codes "7") 21 none
      carol desk

abbrev claims : Claims
claims = record { sub = some (codes "alice"); jti = some (codes "alice"); exp = some 200 }

abbrev blocked : memory.State
blocked = memory.set 100000 (revoked (codes "alice")) (text (codes "1")) (some 100) empty

logged_out :
    (logout memory default_settings request_time tokens (codes "alice") desk).1.redis ≡ some blocked
unfolding logout decode_access_token
logged_out = refl

logout-refused_example :
    get_current_user tokens memory 150000 (some blocked) (codes "alice") db
    ≡ http_error 401 "token has been revoked"
logout-refused_example =
    logout-refused memory default_settings request_time tokens (codes "alice") claims desk empty
      150000 blocked db refl refl refl (omega arith) refl logged_out (omega arith)
