-- ===== src/Security/Examples.antt =====
-- A registration and a login, with tokens that spell their claims and end with the key.
use webhook_relay_service.Samples.{db}
use webhook_relay_service.Workspaces.{Commit, slugify}
use webhook_relay_service.Security.Sessions.{registered-signs_in, token_of}
use webhook_relay_service.RedisMemory.{memory}
use webhook_relay_service.Model.Settings.{default_settings}
use webhook_relay_service.Model.Rows.{User}
use webhook_relay_service.Model.Db.{user_by_id}
use webhook_relay_service.Http.{Result, ok}
use webhook_relay_service.Auth.{
  Desk, UserCreate, check_auth_rate_limit, normalize_email, register, new_user, register_checked,
  store_user, login,
}
use mathlib.Core.Path.{subst}
use webhook_relay_service.Security.{
  Crypto, IsSound, passwords_with, hash_password, peppered_password, tokens_at,
}
use webhook_relay_service.Rbac.{Claims, get_current_user, is_revoked}
use webhook_relay_service.Prelude.{
  List, Option, Text, [], ap, drop, if◌then◌else◌, length, ltb, lt→ltb, none, refl, some, suc, take,
  text_eq, text_eq_refl, zero, ℕ, ◌&&◌, ◌*◌, ◌++◌, ◌<◌, ◌∷◌, ◌≡◌, lower, sym, true, codes, lstrip,
  strip, arith,
}

abbrev spell : Option Text → Text
spell none = 0 ∷ []
spell (some t) = suc (length t) ∷ t

abbrev spell_exp : Option ℕ → Text
spell_exp none = 0 ∷ []
spell_exp (some n) = suc n ∷ []

abbrev read : Text → Option Text × Text
read [] = (none, [])
read (zero ∷ rest) = (none, rest)
read (suc n ∷ rest) = (some (take n rest), drop n rest)

abbrev encode : Claims → Text → Text → Text
encode claims key algorithm =
    spell claims.sub ++ (spell claims.jti ++ (spell_exp claims.exp ++ key))

-- Refused at the end, and once it has expired.
abbrev checked : Option Text → Option Text → ℕ → Text → Text → Option Claims
checked sub jti now [] key = none
checked sub jti now (zero ∷ rest) key =
    if text_eq rest key then some (record { sub = sub; jti = jti; exp = none }) else none
checked sub jti now (suc n ∷ rest) key =
    if text_eq rest key && ltb now (n * 1000)
    then some (record { sub = sub; jti = jti; exp = some n })
    else none

unfoldable decode : Text → Text → List Text → ℕ → Option Claims
decode token key algorithms now =
    let (sub, rest) = read token in let (jti, rest') = read rest in checked sub jti now rest' key

take-append : (xs ys : Text) → take (length xs) (xs ++ ys) ≡ xs
take-append [] ys = refl
take-append (x ∷ xs) ys = ap (λ zs. x ∷ zs) (take-append xs ys)

drop-append : (xs ys : Text) → drop (length xs) (xs ++ ys) ≡ ys
drop-append [] ys = refl
drop-append (x ∷ xs) ys = drop-append xs ys

read-spell : (t : Option Text) (rest : Text) → read (spell t ++ rest) ≡ (t, rest)
read-spell none rest = refl
read-spell (some t) rest = rw (take-append t rest, drop-append t rest) refl

abbrev one_id : Text → Option ℕ
one_id (id ∷ []) = some id
one_id _ = none

abbrev crypto : Crypto
crypto = record {
  hmac_sha256_hex = λ key message. key ++ message;
  hashpw = λ password salt. password;
  checkpw = text_eq;
  jwt_encode = encode;
  jwt_decode = decode;
  parse_uuid = one_id;
  uuid_text = λ id. id ∷ [];
}

decode-encode :
    (sub jti : Option Text) (key algorithm : Text) (exp now : ℕ)
    → now < exp * 1000
    → decode
        (encode (record { sub = sub; jti = jti; exp = some exp }) key algorithm)
        key
        (algorithm ∷ [])
        now
      ≡ some (record { sub = sub; jti = jti; exp = some exp })
unfolding decode
decode-encode sub jti key algorithm exp now soon =
    rw (read-spell sub (spell jti ++ (spell_exp (some exp) ++ key))) (
      rw (read-spell jti (spell_exp (some exp) ++ key))
        (rw (text_eq_refl key, lt→ltb now (exp * 1000) soon) refl))

sound : IsSound crypto
sound = record {
  checkpw-hashpw = λ password salt. text_eq_refl password;
  decode-encode = λ claims key algorithm exp now has_exp soon.
      subst
        (λ e.
          decode (encode (record claims { exp = e }) key algorithm) key (algorithm ∷ []) now
          ≡ some (record claims { exp = e }))
        (sym has_exp) (decode-encode claims.sub claims.jti key algorithm exp now soon);
  parse-text = λ id. refl;
  text-filled = λ id. refl;
}

abbrev request_at : ℕ → Commit
request_at now = record { now = now; new_id = 7; commits = true }

abbrev carol : UserCreate
carol = record {
  email = codes " Carol@shop.example";
  password = codes "longenough";
  display_name = codes "Carol";
}

abbrev desk : Desk memory default_settings
desk = record { db = db; redis = none }

abbrev carol_user : User
carol_user =
    new_user memory default_settings (request_at 100000)
      (passwords_with crypto default_settings (codes "salt")) carol

abbrev after_registration : Result User × Desk memory default_settings
after_registration =
    register memory default_settings (request_at 100000)
      (passwords_with crypto default_settings (codes "salt")) (λ id. codes "7") 21 none carol desk

done : after_registration.0 ≡ ok carol_user
unfolding register register_checked check_auth_rate_limit store_user normalize_email text_eq strip
    lstrip lower slugify hash_password peppered_password
done = refl

fresh_id : user_by_id 7 db ≡ none
unfolding user_by_id
fresh_id = refl

unlimited :
    (check_auth_rate_limit memory default_settings
      (request_at 101000)
      none
      (codes " Carol@shop.example")
      (codes "login")
      after_registration.1).0
    ≡ ok tt
unfolding register register_checked check_auth_rate_limit store_user normalize_email text_eq strip
    lstrip lower slugify
unlimited = refl

registered-signs_in_example :
    ((login memory default_settings
        (request_at 101000)
        (passwords_with crypto default_settings (codes "salt"))
        none
        carol.email
        carol.password
        after_registration.1).0
      ≡ ok carol_user)
    × (get_current_user
          (tokens_at crypto default_settings 200000)
          memory
          200000
          none
          (token_of memory crypto default_settings (codes "salt") 101000 55 carol_user)
          after_registration.1.db
        ≡ ok carol_user)
unfolding is_revoked
registered-signs_in_example =
    registered-signs_in memory crypto default_settings (codes "salt") (request_at 100000)
      (request_at 101000) (λ id. codes "7") 21 none none carol desk carol_user 200000 55 none sound
      fresh_id done unlimited (omega arith) refl
