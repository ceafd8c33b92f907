-- ===== src/Security/Sessions.antt =====
-- From a registration to a request: the password that was stored lets its user in, and the token
-- that a login makes stands for that user.
use mathlib.Core.Path.{subst}
use webhook_relay_service.Model.Rows.{User}
use webhook_relay_service.Workspaces.{Commit}
use webhook_relay_service.Security.{
  Crypto, create_access_token, hash_password, passwords_with, peppered_password, tokens_at,
  verify_password, IsSound,
}
use webhook_relay_service.Redis.{Redis}
use webhook_relay_service.Rbac.Access.{current_user_iff, is_revoked_iff}
use webhook_relay_service.Rbac.{get_current_user, is_revoked}
use webhook_relay_service.Prelude.{
  Option, Text, [], codes, false, find, none, refl, some, text_eq, true, ℕ, ◌*◌, ◌++◌, ◌+◌, ◌/◌,
  ◌<◌, ◌∷◌, ◌≡◌, ◌∙◌, ◌==◌, sym, text_eq_refl, ap, ==_refl, find-append, lower,
}
use webhook_relay_service.Model.Settings.{Settings}
use webhook_relay_service.Model.Db.{Db, user_by_id}
use webhook_relay_service.Auth.Accounts.{check-db, register-Registered, Registered}
use webhook_relay_service.Auth.{
  Desk, Passwords, check_auth_rate_limit, normalize_email, login, UserCreate, register, new_user,
}
use webhook_relay_service.Http.{ok, raised, Result}

module _ (r : Redis) (crypto : Crypto) (settings : Settings) (salt : Text) where
  abbrev passwords : Passwords
  passwords = passwords_with crypto settings salt

  verify-hash :
      (password : Text)
      → IsSound crypto
      → passwords.verify_password password (passwords.hash_password password) ≡ true
  unfolding verify_password hash_password
  verify-hash password sound =
      sound.checkpw-hashpw (peppered_password crypto settings password) salt

  -- The second at which a token made at a time expires.
  abbrev pub expiry : ℕ → ℕ
  expiry now = (now + settings.jwt_expire_minutes * 60000) / 1000

  abbrev pub token_of : ℕ → ℕ → User → Text
  token_of now jti user =
      create_access_token crypto settings now jti (crypto.uuid_text user.id) none

  token_of-authentic :
      (made now jti : ℕ) (redis : Option r.State) (user : User) (db : Db)
      → IsSound crypto
      → user_by_id user.id db ≡ some user
      → user.is_active ≡ true
      → now < expiry made * 1000
      → is_revoked (tokens_at crypto settings now) r now redis (some (crypto.uuid_text jti)) ≡ false
      → get_current_user (tokens_at crypto settings now) r now redis (token_of made jti user) db
        ≡ ok user
  unfolding create_access_token
  token_of-authentic made now jti redis user db sound stored active fresh unrevoked =
      (current_user_iff (tokens_at crypto settings now) r now redis (token_of made jti user) db
          user).1
        (record {
          claims = record {
            sub = some (crypto.uuid_text user.id);
            jti = some (crypto.uuid_text jti);
            exp = some (expiry made);
          };
          decoded =
              sound.decode-encode _ settings.jwt_secret_key settings.jwt_algorithm (expiry made) now
                refl fresh;
          subject = sound.text-filled user.id;
          not_revoked =
              (is_revoked_iff (tokens_at crypto settings now) r now redis (token_of made jti user)
                  db user (some (crypto.uuid_text jti))).0
                unrevoked;
          user_id = user.id;
          parsed = sound.parse-text user.id;
          stored = stored;
          active = active;
        })

  login-ok :
      (at : Commit) (client : Option Text) (email password : Text) (s : Desk r settings)
      (user : User)
      → (check_auth_rate_limit r settings at client email (codes "login") s).0 ≡ ok tt
      → find (λ (u : User). text_eq u.email (normalize_email email)) s.db.users ≡ some user
      → passwords.verify_password password user.password_hash ≡ true
      → user.is_active ≡ true
      → (login r settings at passwords client email password s).0 ≡ ok user
  unfolding login
  login-ok at client email password s user few found verified active =
      let later : find (λ (u : User). text_eq u.email (normalize_email email))
            (check_auth_rate_limit r settings at client email (codes "login") s).1.db.users
          ≡ some user =
        rw (check-db r settings at passwords client email (codes "login") s) found in
      simp (few, later, verified, active) refl

  -- What a successful registration leaves: its user, and the database with that user added.
  Registered-user :
      (at : Commit) (workspace_id : ℕ) (body : UserCreate) (db : Db)
      (end_state : Result User × Desk r settings) (user : User)
      → Registered r settings at passwords workspace_id body db end_state
      → end_state.0 ≡ ok user
      → (user ≡ new_user r settings at passwords body)
        × (find (λ (u : User). text_eq u.email (normalize_email body.email)) db.users ≡ none)
        × (end_state.1.db.users ≡ db.users ++ new_user r settings at passwords body ∷ [])
  unfolding normalize_email lower
  Registered-user at workspace_id body db (raised e, s') user reg h = absurd cc
  Registered-user at workspace_id body db (ok u, s') user reg h =
      let (_, free, same, _, _, _, stored) = reg in
      let inner : u ≡ user = cc in (sym inner ∙ same, free, ap (λ (d : Db). d.users) stored)

  new_user-signs_in :
      (at at' : Commit) (client : Option Text) (body : UserCreate) (db : Db) (s : Desk r settings)
      (now jti : ℕ) (redis : Option r.State)
      → IsSound crypto
      → user_by_id at.new_id db ≡ none
      → find (λ (u : User). text_eq u.email (normalize_email body.email)) db.users ≡ none
      → s.db.users ≡ db.users ++ new_user r settings at passwords body ∷ []
      → (check_auth_rate_limit r settings at' client body.email (codes "login") s).0 ≡ ok tt
      → now < expiry at'.now * 1000
      → is_revoked (tokens_at crypto settings now) r now redis (some (crypto.uuid_text jti)) ≡ false
      → ((login r settings at' passwords client body.email body.password s).0
          ≡ ok (new_user r settings at passwords body))
        × (get_current_user
              (tokens_at crypto settings now)
              r
              now
              redis
              (token_of at'.now jti (new_user r settings at passwords body))
              s.db
            ≡ ok (new_user r settings at passwords body))
  unfolding user_by_id
  new_user-signs_in at at' client body db s now jti redis sound fresh free users few soon
        unrevoked =
      let user = new_user r settings at passwords body in
      let by_email : find (λ (u : User). text_eq u.email (normalize_email body.email)) s.db.users
          ≡ some user =
        rw users (
          find-append (λ (u : User). text_eq u.email (normalize_email body.email)) db.users user
            free (text_eq_refl (normalize_email body.email))) in
      let by_id : find (λ (u : User). u.id == at.new_id) s.db.users ≡ some user =
        rw users
          (find-append (λ (u : User). u.id == at.new_id) db.users user fresh (==_refl at.new_id)) in
      (
        login-ok at' client body.email body.password s user few by_email
            (verify-hash body.password sound) refl,
        token_of-authentic at'.now now jti redis user s.db sound by_id refl soon unrevoked,
      )

  -- A user who registers, and whose new id no other user has, can sign in with the same e-mail and
  -- password as long as no limit of attempts is met; the token of that login stands for the user in
  -- a later request, in the database that the registration left, until the second at which it
  -- expires, unless it is revoked.
  pub registered-signs_in :
      (at at' : Commit) (str_of : ℕ → Text) (workspace_id : ℕ) (client client' : Option Text)
      (body : UserCreate) (s : Desk r settings) (user : User) (now jti : ℕ) (redis : Option r.State)
      → IsSound crypto
      → user_by_id at.new_id s.db ≡ none
      → (register r settings at passwords str_of workspace_id client body s).0 ≡ ok user
      → (check_auth_rate_limit r settings at' client' body.email
          (codes "login")
          (register r settings at passwords str_of workspace_id client body s).1).0
        ≡ ok tt
      → now < expiry at'.now * 1000
      → is_revoked (tokens_at crypto settings now) r now redis (some (crypto.uuid_text jti)) ≡ false
      → ((login r settings at' passwords client' body.email body.password
            (register r settings at passwords str_of workspace_id client body s).1).0
          ≡ ok user)
        × (get_current_user
              (tokens_at crypto settings now)
              r
              now
              redis
              (token_of at'.now jti user)
              (register r settings at passwords str_of workspace_id client body s).1.db
            ≡ ok user)
  registered-signs_in at at' str_of workspace_id client client' body s user now jti redis sound
        fresh done few soon unrevoked =
      let end_state = register r settings at passwords str_of workspace_id client body s in
      let (same, free, users) =
        Registered-user at workspace_id body s.db end_state user
          (register-Registered r settings at passwords str_of workspace_id client body s) done in
      subst
        (λ (u : User).
          ((login r settings at' passwords client' body.email body.password end_state.1).0 ≡ ok u)
          × (get_current_user (tokens_at crypto settings now) r now redis (token_of at'.now jti u)
                end_state.1.db
              ≡ ok u))
        (sym same)
        (new_user-signs_in at at' client' body s.db end_state.1 now jti redis sound fresh free users
          few soon unrevoked)
