-- ===== src/Rbac.antt =====
-- app/middleware/rbac.py and `decode_access_token` of app/core/security.py: who a token stands for,
-- and the role that a request needs. What `jose.jwt` and `uuid` return is the parameter `Tokens`;
-- an exception that is not caught is the status 500.
mod Examples
pub mod Access
use webhook_relay_service.UrlSecurity.{text_of}
use webhook_relay_service.Redis.Keys.{revoked}
use webhook_relay_service.Redis.{Redis}
use webhook_relay_service.Prelude.{
  Bool, List, Option, Text, [], codes, false, if◌then◌else◌, ltb, none, not, some, text_eq, true, ℕ,
  ◌&&◌, ◌∷◌,
}
use webhook_relay_service.Model.Rows.{User, WorkspaceMembership}
use webhook_relay_service.Model.Db.{Db, membership_by_id, user_by_id}
use webhook_relay_service.Http.{Result, filled, or_raise, raise_if, ◌>>=◌, ◌>>◌, ok}

-- What the token says, where it says it.
pub record Claims : Type 0 where
  pub sub : Option Text
  pub jti : Option Text
  -- in seconds
  pub exp : Option ℕ

pub record Tokens : Type 0 where
  -- `jwt.decode`, where `none` is a `JWTError`
  pub jwt_decode : Text → Option Claims
  -- `uuid.UUID`, where `none` is a `ValueError`
  pub parse_uuid : Text → Option ℕ

abbrev pub role_hierarchy : List (Text × ℕ)
role_hierarchy =
    (codes "viewer", 0) ∷ (codes "member", 1) ∷ (codes "admin", 2) ∷ (codes "owner", 3) ∷ []

-- `ROLE_HIERARCHY.get(role)`.
unfoldable pub level_of : Text → List (Text × ℕ) → Option ℕ
level_of role [] = none
level_of role ((name, level) ∷ rest) = if text_eq role name then some level else level_of role rest

-- `user_level < required_level`, where a role of no level counts as -1 and a required role of no
-- level as 99.
abbrev pub below_level : Option ℕ → Option ℕ → Bool
below_level none _ = true
below_level (some level) none = ltb level 99
below_level (some level) (some required) = ltb level required

module _ (tokens : Tokens) where
  unfoldable pub decode_access_token : Text → Result Claims
  decode_access_token token = or_raise (tokens.jwt_decode token) 401 "invalid or expired token"

  module _ (r : Redis) (now : ℕ) (redis : Option r.State) where
    -- Whether the token was revoked; without a connection to Redis the check is skipped.
    unfoldable pub is_revoked : Option Text → Bool
    is_revoked jti = elim redis [
      | none ↦ false
      | some s ↦
          filled jti && elim (r.get now (revoked (text_of jti)) s) [ none ↦ false | some _ ↦ true ]
    ]

    unfoldable pub get_current_user : Text → Db → Result User
    get_current_user token db = do
      claims ← decode_access_token token
      raise_if (not (filled claims.sub)) 401 "invalid token payload"
      raise_if (is_revoked claims.jti) 401 "token has been revoked"
      user_id ← or_raise (tokens.parse_uuid (text_of claims.sub)) 500 "ValueError"
      user ← or_raise (user_by_id user_id db) 401 "user not found or inactive"
      raise_if (not user.is_active) 401 "user not found or inactive"
      ok user

  unfoldable pub get_workspace_membership : Text → User → Db → Result WorkspaceMembership
  get_workspace_membership workspace_id user db = do
    ws_id ← or_raise (tokens.parse_uuid workspace_id) 400 "invalid workspace id"
    or_raise (membership_by_id user.id ws_id db) 403 "not a member of this workspace"

  unfoldable pub require_workspace_role : Text → Text → User → Db → Result WorkspaceMembership
  require_workspace_role minimum_role workspace_id user db = do
    membership ← get_workspace_membership workspace_id user db
    raise_if
        (below_level (level_of membership.role role_hierarchy)
          (level_of minimum_role role_hierarchy))
        403 "requires a higher role"
    ok membership
