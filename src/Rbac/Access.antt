-- ===== src/Rbac/Access.antt =====
-- Who is let through: the user that a token stands for, and the member that has the role.
use webhook_relay_service.Redis.Keys.{revoked}
use webhook_relay_service.UrlSecurity.{text_of}
use webhook_relay_service.Redis.{Redis}
use webhook_relay_service.Rbac.{
  Claims, Tokens, below_level, decode_access_token, get_current_user, get_workspace_membership,
  is_revoked, level_of, require_workspace_role, role_hierarchy,
}
use webhook_relay_service.Prelude.{
  Option, Text, codes, false, some, text_eq, true, ℕ, ◌↔◌, ◌≡◌, ◌⊎◌, arith, text_eq_iff, refl,
  Option-cases, Bool-cases, inl, inr, none,
}
use webhook_relay_service.Model.Rows.{User, WorkspaceMembership}
use webhook_relay_service.Model.Db.{Db, membership_by_id, user_by_id}
use webhook_relay_service.Http.{filled, ok}

-- The user that a token stands for: the token decodes, its subject is the id of an active user,
-- and, where Redis is connected and the token has an id, Redis holds no key that revokes that id.
pub record IsAuthentic (tokens : Tokens) (r : Redis) (now : ℕ) (redis : Option r.State)
    (token : Text) (db : Db) (user : User) : Type 0 where
  pub claims : Claims
  pub decoded : tokens.jwt_decode token ≡ some claims
  pub subject : filled claims.sub ≡ true
  pub not_revoked :
      (s : r.State)
      → redis ≡ some s
      → filled claims.jti ≡ true
      → r.get now (revoked (text_of claims.jti)) s ≡ none
  pub user_id : ℕ
  pub parsed : tokens.parse_uuid (text_of claims.sub) ≡ some user_id
  pub stored : user_by_id user_id db ≡ some user
  pub active : user.is_active ≡ true

-- The same, as the code asks about the revocation.
record Passes (tokens : Tokens) (r : Redis) (now : ℕ) (redis : Option r.State) (token : Text)
    (db : Db) (user : User) : Type 0 where
  claims : Claims
  decoded : tokens.jwt_decode token ≡ some claims
  subject : filled claims.sub ≡ true
  not_revoked : is_revoked tokens r now redis claims.jti ≡ false
  user_id : ℕ
  parsed : tokens.parse_uuid (text_of claims.sub) ≡ some user_id
  stored : user_by_id user_id db ≡ some user
  active : user.is_active ≡ true

module _ (tokens : Tokens) (r : Redis) (now : ℕ) (redis : Option r.State) (token : Text) (db : Db)
    (user : User) where
  pub is_revoked_iff :
      (jti : Option Text)
      → (is_revoked tokens r now redis jti ≡ false) ↔ (
          (s : r.State)
          → redis ≡ some s
          → filled jti ≡ true
          → r.get now (revoked (text_of jti)) s ≡ none)
  unfolding is_revoked
  is_revoked_iff jti = (
    λ h s connected has_id. ground (arith, h, connected, has_id),
    λ h. elim (Option-cases redis) [
      | inl off ↦ rw off refl
      | inr (s, on) ↦ elim (Bool-cases (filled jti)) [
        | inr no_id ↦ rw (on, no_id) refl
        | inl has_id ↦ rw (on, has_id, h s on has_id) refl
      ]
    ],
  )

  user-Passes :
      get_current_user tokens r now redis token db ≡ ok user
      → Passes tokens r now redis token db user
  unfolding get_current_user decode_access_token
  user-Passes h = ground arith

  -- A request gets a user exactly if its token decodes, its subject is the id of a stored, active
  -- user, namely that one, and, where Redis is connected and the token has an id, Redis holds no key
  -- that revokes that id.
  pub current_user_iff :
      (get_current_user tokens r now redis token db ≡ ok user)
      ↔ IsAuthentic tokens r now redis token db user
  unfolding get_current_user decode_access_token
  current_user_iff = (
    λ h.
        let p = user-Passes h in
        record {
          claims = p.claims;
          decoded = p.decoded;
          subject = p.subject;
          not_revoked = (is_revoked_iff p.claims.jti).0 p.not_revoked;
          user_id = p.user_id;
          parsed = p.parsed;
          stored = p.stored;
          active = p.active;
        },
    λ a. ground (
      arith,
      a.decoded,
      a.subject,
      (is_revoked_iff a.claims.jti).1 a.not_revoked,
      a.parsed,
      a.stored,
      a.active,
    ),
  )

module _ (tokens : Tokens) (workspace_id : Text) (user : User) (db : Db)
    (m : WorkspaceMembership) where
  -- A request passes the role check exactly if its workspace id is well-formed, the user is a member
  -- of that workspace and the level of the member's role is not below the level that is asked for.
  pub require_role_iff :
      (minimum_role : Text)
      → (require_workspace_role tokens minimum_role workspace_id user db ≡ ok m) ↔ (
          (ws_id : ℕ) × (tokens.parse_uuid workspace_id ≡ some ws_id)
          × (membership_by_id user.id ws_id db ≡ some m)
          × (below_level (level_of m.role role_hierarchy) (level_of minimum_role role_hierarchy)
              ≡ false))
  unfolding require_workspace_role get_workspace_membership
  require_role_iff minimum_role = (λ h. ground arith, λ (ws_id, p, f, l). ground (arith, p, f, l))

  above_admin :
      (role : Text)
      → below_level (level_of role role_hierarchy) (some 2) ≡ false
      → (role ≡ codes "admin") ⊎ (role ≡ codes "owner")
  unfolding level_of
  above_admin role h =
      ground (arith, h, text_eq_iff role (codes "admin"), text_eq_iff role (codes "owner"))

  admin_level : level_of (codes "admin") role_hierarchy ≡ some 2
  unfolding level_of text_eq
  admin_level = refl

  pub require_admin :
      require_workspace_role tokens (codes "admin") workspace_id user db ≡ ok m
      → (m.role ≡ codes "admin") ⊎ (m.role ≡ codes "owner")
  require_admin h =
      let (ws_id, p, f, l) = (require_role_iff (codes "admin")).0 h in
      above_admin m.role (rw admin_level at l)
