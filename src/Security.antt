-- ===== src/Security.antt =====
-- app/core/security.py: how a password is stored, and how a token is made and read. What `hmac`,
-- `bcrypt` and `jose.jwt` do is the parameter `Crypto`; times are in milliseconds, those of a token
-- in seconds.
mod Examples
pub mod Sessions
use webhook_relay_service.Rbac.{Claims, Tokens}
use webhook_relay_service.Prelude.{
  Bool, List, Option, Text, [], none, some, suc, true, zero, ℕ, ◌*◌, ◌+◌, ◌/◌, ◌<◌, ◌∷◌, ◌≡◌,
}
use webhook_relay_service.Model.Settings.{Settings}
use webhook_relay_service.Http.{filled}
use webhook_relay_service.Auth.{Passwords}

pub record Crypto : Type 0 where
  -- `hmac.new(key, message, sha256).hexdigest()`
  pub hmac_sha256_hex : Text → Text → Text
  -- `bcrypt.hashpw(password, salt)` and `bcrypt.checkpw(password, hashed)`
  pub hashpw : Text → Text → Text
  pub checkpw : Text → Text → Bool
  -- `jwt.encode(claims, key, algorithm)`, and `jwt.decode(token, key, algorithms)` at a time, where
  -- `none` is a `JWTError`
  pub jwt_encode : Claims → Text → Text → Text
  pub jwt_decode : Text → Text → List Text → ℕ → Option Claims
  -- `uuid.UUID`, where `none` is a `ValueError`, and `str` of a UUID
  pub parse_uuid : Text → Option ℕ
  pub uuid_text : ℕ → Text

-- What the libraries document: a password matches its own hash, a token that has not expired is
-- read as it was written by who has its key, and a UUID is read as it was written.
pub record IsSound (crypto : Crypto) : Type 0 where
  pub checkpw-hashpw :
      (password salt : Text) → crypto.checkpw password (crypto.hashpw password salt) ≡ true
  pub decode-encode :
      (claims : Claims) (key algorithm : Text) (exp now : ℕ)
      → claims.exp ≡ some exp
      → now < exp * 1000
      → crypto.jwt_decode (crypto.jwt_encode claims key algorithm) key (algorithm ∷ []) now
        ≡ some claims
  pub parse-text : (id : ℕ) → crypto.parse_uuid (crypto.uuid_text id) ≡ some id
  pub text-filled : (id : ℕ) → filled (some (crypto.uuid_text id)) ≡ true

-- `expires_delta or settings.jwt_expire_minutes`.
abbrev pub minutes_or : Option ℕ → ℕ → ℕ
minutes_or none default = default
minutes_or (some zero) default = default
minutes_or (some (suc n)) default = suc n

module _ (crypto : Crypto) (settings : Settings) where
  unfoldable pub peppered_password : Text → Text
  peppered_password password = crypto.hmac_sha256_hex settings.password_pepper password

  unfoldable pub hash_password : Text → Text → Text
  hash_password salt password = crypto.hashpw (peppered_password password) salt

  unfoldable pub verify_password : Text → Text → Bool
  verify_password plain hashed = crypto.checkpw (peppered_password plain) hashed

  -- For the data `{"sub": sub}`, at a time, with the UUID that is drawn for the token.
  unfoldable pub create_access_token : ℕ → ℕ → Text → Option ℕ → Text
  create_access_token now jti sub expires_delta =
      crypto.jwt_encode
        (record {
          sub = some sub;
          jti = some (crypto.uuid_text jti);
          exp = some ((now + minutes_or expires_delta settings.jwt_expire_minutes * 60000) / 1000);
        })
        settings.jwt_secret_key settings.jwt_algorithm

  -- The library calls that `decode_access_token` and the role checks make, at a time.
  abbrev pub tokens_at : ℕ → Tokens
  tokens_at now = record {
    jwt_decode =
        λ token. crypto.jwt_decode token settings.jwt_secret_key (settings.jwt_algorithm ∷ []) now;
    parse_uuid = crypto.parse_uuid;
  }

  -- Those that registration and login make, with the salt that is drawn.
  abbrev pub passwords_with : Text → Passwords
  passwords_with salt = record {
    hash_password = hash_password salt;
    verify_password = verify_password;
  }
