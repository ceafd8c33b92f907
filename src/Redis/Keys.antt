-- ===== src/Redis/Keys.antt =====
-- The keys under which the program stores data in Redis, one constructor for each f-string that
-- builds one. Two f-strings differ in a fixed word, and an id has no colon, so different values
-- of the types below are different keys.
use webhook_relay_service.Prelude.{
  ℕ, Bool, false, ◌&&◌, Text, text_eq, ◌==◌, ◌≡◌, true, ==_refl, text_eq_refl,
}

pub data Key : Type 0 where
  -- f"cb:{url}:state" and its three neighbours
  cb_state cb_failures cb_open_since cb_half_tested : Text → Key
  -- f"idem:{endpoint.id}:{idempotency_key}"
  idem : ℕ → Text → Key
  -- f"revoked:jti:{jti}"
  revoked : Text → Key
  -- f"auth-rl:{action}:ip:{client_host}" and f"auth-rl:{action}:email:{safe_email}"
  auth_ip auth_email : Text → Text → Key

-- The sorted sets of the rate limiter: f"rl:{key}" with its three kinds of key.
pub data WindowKey : Type 0 where
  route ingress : ℕ → WindowKey
  dest : Text → WindowKey

unfoldable pub key_eq : Key → Key → Bool
key_eq (cb_state u) (cb_state v) = text_eq u v
key_eq (cb_failures u) (cb_failures v) = text_eq u v
key_eq (cb_open_since u) (cb_open_since v) = text_eq u v
key_eq (cb_half_tested u) (cb_half_tested v) = text_eq u v
key_eq (idem e k) (idem f l) = e == f && text_eq k l
key_eq (revoked u) (revoked v) = text_eq u v
key_eq (auth_ip a u) (auth_ip b v) = text_eq a b && text_eq u v
key_eq (auth_email a u) (auth_email b v) = text_eq a b && text_eq u v
key_eq _ _ = false

unfoldable pub window_eq : WindowKey → WindowKey → Bool
window_eq (route r) (route s) = r == s
window_eq (ingress e) (ingress f) = e == f
window_eq (dest u) (dest v) = text_eq u v
window_eq _ _ = false

pub key_eq_refl : (k : Key) → key_eq k k ≡ true
unfolding key_eq
key_eq_refl (cb_state u) = text_eq_refl u
key_eq_refl (cb_failures u) = text_eq_refl u
key_eq_refl (cb_open_since u) = text_eq_refl u
key_eq_refl (cb_half_tested u) = text_eq_refl u
key_eq_refl (idem e k) = simp (==_refl, text_eq_refl)
key_eq_refl (revoked u) = text_eq_refl u
key_eq_refl (auth_ip a u) = simp text_eq_refl
key_eq_refl (auth_email a u) = simp text_eq_refl

pub window_eq_refl : (k : WindowKey) → window_eq k k ≡ true
unfolding window_eq
window_eq_refl (route r) = ==_refl r
window_eq_refl (ingress e) = ==_refl e
window_eq_refl (dest u) = text_eq_refl u
