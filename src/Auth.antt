-- ===== src/Auth.antt =====
-- app/api/auth.py: registration, login and logout. What `bcrypt` does is the parameter `Passwords`;
-- the token of a reply is left out: it is `Security.create_access_token` of the user's id.
mod Examples
pub mod Revocation
pub mod Accounts
use webhook_relay_service.Workspaces.{Commit, commit, is_slug, slugify}
use webhook_relay_service.UrlSecurity.{text_of}
use webhook_relay_service.Redis.Keys.{Key, auth_email, auth_ip, revoked}
use webhook_relay_service.Redis.{Redis, text}
use webhook_relay_service.Rbac.{Tokens, decode_access_token}
use webhook_relay_service.Prelude.{
  Bool, List, Option, Text, [], any, codes, false, find, if◌then◌else◌, length, lower, ltb, none,
  not, some, strip, text_eq, true, ℕ, ◌&&◌, ◌*◌, ◌++◌, ◌-◌, ◌/◌, ◌==◌, ◌∷◌,
}
use webhook_relay_service.Model.Settings.{Settings}
use webhook_relay_service.Model.Rows.{User, Workspace, failed}
use webhook_relay_service.Model.Db.{Db}
use webhook_relay_service.Http.{Result, filled, http_error, or_raise, raise_if, raised, ok}
use webhook_relay_service.Http.Action.{◌>>=◌, ◌>>◌, pure, gets, lift, Action, continue}

pub record Passwords : Type 0 where
  pub hash_password : Text → Text
  pub verify_password : Text → Text → Bool

pub record UserCreate : Type 0 where
  pub email : Text
  pub password : Text
  pub display_name : Text

unfoldable pub normalize_email : Text → Text
unfolding strip lower
normalize_email email = lower (strip email)

-- `request.client.host if request.client else "unknown"`.
abbrev pub host_or_unknown : Option Text → Text
host_or_unknown none = codes "unknown"
host_or_unknown (some host) = host

abbrev pub is_user : Option User → Bool
is_user none = false
is_user (some user) = true

module _ (r : Redis) (settings : Settings) where
  -- The database, and Redis if it is connected.
  pub record Desk : Type 0 where
    pub db : Db
    pub redis : Option r.State

  module _ (at : Commit) where
    -- One key of the loop.
    unfoldable pub count_attempt : Key → r.State → Result (Unit {0}) × r.State
    count_attempt key s =
        let (attempts, s') = r.incr at.now key s in
        let s'' = if attempts == 1 then r.expire at.now key 60 s' else s' in
        (
          raise_if (ltb settings.auth_rate_limit_per_minute attempts) 429
              "too many authentication attempts",
          s'',
        )

    -- The loop over the keys, which a raise ends.
    unfoldable pub count_attempts : List Key → Action r.State Unit
    count_attempts [] s = (ok tt, s)
    count_attempts (key ∷ keys) s =
        let (checked, s') = count_attempt key s in continue checked (λ _. count_attempts keys) s'

    unfoldable pub check_auth_rate_limit : Option Text → Text → Text → Action Desk Unit
    check_auth_rate_limit client email action s = elim s.redis [
      | none ↦ (ok tt, s)
      | some redis ↦
          let (checked, redis') =
            count_attempts
              (auth_ip action (host_or_unknown client)
                ∷ auth_email action (normalize_email email)
                ∷ [])
              redis in
          (checked, record s { redis = some redis' })
    ]

    abbrev pub find_user : Text → Desk → Option User
    find_user email s = find (λ u. text_eq u.email email) s.db.users

    module _ (passwords : Passwords) where
      abbrev pub new_user : UserCreate → User
      new_user body = record {
        id = at.new_id;
        email = normalize_email body.email;
        display_name = body.display_name;
        password_hash = passwords.hash_password body.password;
        is_active = true;
        created_at = at.now;
      }

      -- The user, a workspace and its owner, in one transaction.
      abbrev pub with_user : ℕ → Text → Text → UserCreate → Db → Db
      with_user workspace_id name slug body db = record db {
        users = db.users ++ new_user body ∷ [];
        workspaces =
            db.workspaces
            ++ record { id = workspace_id; name = name; slug = slug; created_at = at.now } ∷ [];
        memberships =
            db.memberships
            ++ record {
              user_id = at.new_id;
              workspace_id = workspace_id;
              role = codes "owner";
              joined_at = at.now;
            }
              ∷ [];
      }

      unfoldable pub store_user : (ℕ → Text) → ℕ → UserCreate → Action Desk User
      store_user str_of workspace_id body s =
          let slug = slugify (body.display_name ++ (codes "-" ++ str_of at.new_id)) in
          if any (is_slug slug) s.db.workspaces
          then (http_error 500 "IntegrityError", s)
          else if at.commits
          then (
            ok (new_user body),
            record s {
              db =
                  with_user workspace_id (body.display_name ++ codes "'s Workspace") slug body s.db;
            },
          )
          else (http_error 500 "commit failed", s)

      -- From the test of the password on.
      unfoldable pub register_checked : (ℕ → Text) → ℕ → UserCreate → Action Desk User
      register_checked str_of workspace_id body = do
        lift (raise_if (ltb (length body.password) 8) 400 "password must be at least 8 characters")
        existing ← gets (find_user (normalize_email body.email))
        lift (raise_if (is_user existing) 409 "email already registered")
        store_user str_of workspace_id body

      unfoldable pub register : (ℕ → Text) → ℕ → Option Text → UserCreate → Action Desk User
      register str_of workspace_id client body = do
        check_auth_rate_limit client body.email (codes "register")
        register_checked str_of workspace_id body

      unfoldable pub login : Option Text → Text → Text → Action Desk User
      login client email password = do
        check_auth_rate_limit client email (codes "login")
        found ← gets (find_user (normalize_email email))
        user ← lift (or_raise found 401 "invalid email or password")
        lift (
            raise_if (not (passwords.verify_password password user.password_hash)) 401
              "invalid email or password")
        lift (raise_if (not user.is_active) 403 "account is disabled")
        pure user

    -- `int(exp - time.time())`, where a negative number counts as 0.
    abbrev pub ttl_of : Option ℕ → ℕ
    ttl_of none = 0
    ttl_of (some exp) = (exp * 1000 - at.now) / 1000

    -- After the dependency `get_current_user`: the token's id is blocked until the token expires; without Redis nothing is blocked.
    unfoldable pub logout : Tokens → Text → Action Desk Unit
    logout tokens token s = elim (decode_access_token tokens token) [
      | raised e ↦ (raised e, s)
      | ok claims ↦ (
        ok tt,
        if filled claims.jti && ltb 0 (ttl_of claims.exp)
            then record s {
              redis = elim s.redis [
                | none ↦ none
                | some redis ↦ some (
                    r.set at.now (revoked (text_of claims.jti)) (text (codes "1"))
                      (some (ttl_of claims.exp)) redis)
              ];
            }
            else s,
      )
    ]
