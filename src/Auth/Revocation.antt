-- ===== src/Auth/Revocation.antt =====
-- A token after its logout.
use webhook_relay_service.Workspaces.{Commit}
use webhook_relay_service.UrlSecurity.{text_of}
use webhook_relay_service.Redis.Keys.{revoked, key_eq_refl}
use webhook_relay_service.Redis.{Redis, text, live}
use webhook_relay_service.Rbac.{Claims, Tokens, decode_access_token, get_current_user, is_revoked}
use webhook_relay_service.Prelude.{
  Text, codes, some, true, ℕ, ◌*◌, ◌+◌, ◌<◌, ◌≡◌, ◌∙◌, ltb, refl, arith, lt→ltb, sym,
}
use webhook_relay_service.Model.Settings.{Settings}
use webhook_relay_service.Model.Db.{Db}
use webhook_relay_service.Http.{filled, http_error}
use webhook_relay_service.Auth.{Desk, logout, ttl_of}

module _ (r : Redis) (settings : Settings) (at : Commit) (tokens : Tokens) (token : Text)
    (claims : Claims) (s : Desk r settings) (redis : r.State) where
  stored_block :
      tokens.jwt_decode token ≡ some claims
      → filled claims.jti ≡ true
      → 0 < ttl_of r settings at claims.exp
      → s.redis ≡ some redis
      → (logout r settings at tokens token s).1.redis
        ≡ some (
            r.set at.now
              (revoked (text_of claims.jti))
              (text (codes "1"))
              (some (ttl_of r settings at claims.exp))
              redis)
  unfolding logout decode_access_token
  stored_block decoded has_jti lives on =
      let longer : ltb 0 (ttl_of r settings at claims.exp) ≡ true = lt→ltb 0 _ lives in
      ground (arith, decoded, has_jti, longer, on)

  abbrev blocked : r.State
  blocked =
      r.set at.now (revoked (text_of claims.jti)) (text (codes "1"))
        (some (ttl_of r settings at claims.exp)) redis

  blocked-live :
      (later : ℕ)
      → later < at.now + ttl_of r settings at claims.exp * 1000
      → live later (r.entry (revoked (text_of claims.jti)) blocked) ≡ some (text (codes "1"))
  blocked-live later soon =
      let still : ltb later (at.now + ttl_of r settings at claims.exp * 1000) ≡ true =
        lt→ltb _ _ soon in
      simp (r.entry-set, key_eq_refl, still) refl

  -- A token with an id, logged out while Redis is connected, is refused from then on until the second
  -- at which its lifetime ends.
  pub logout-refused :
      (later : ℕ) (redis' : r.State) (db : Db)
      → tokens.jwt_decode token ≡ some claims
      → filled claims.sub ≡ true
      → filled claims.jti ≡ true
      → 0 < ttl_of r settings at claims.exp
      → s.redis ≡ some redis
      → (logout r settings at tokens token s).1.redis ≡ some redis'
      → later < at.now + ttl_of r settings at claims.exp * 1000
      → get_current_user tokens r later (some redis') token db
        ≡ http_error 401 "token has been revoked"
  unfolding get_current_user decode_access_token is_revoked
  logout-refused later redis' db decoded has_sub has_jti lives on after soon =
      let same : some redis' ≡ some (blocked) = sym after ∙ stored_block decoded has_jti lives on in
      let e : redis' ≡ blocked = ground (arith, same) in
      let present : r.get later (revoked (text_of claims.jti)) redis' ≡ some (text (codes "1")) =
        r.get_live later (revoked (text_of claims.jti)) redis' ∙ rw e (blocked-live later soon) in
      simp (decoded, has_sub, has_jti, present) refl
