-- ===== src/Auth/Accounts.antt =====
-- What a registration leaves in the database.
use mathlib.Core.Path.{subst}
use webhook_relay_service.Workspaces.{Commit, is_slug, slugify}
use webhook_relay_service.Redis.{Redis}
use webhook_relay_service.Prelude.{
  Option, Option-cases, Text, any, false, find, inl, inr, length, none, refl, text_eq, ℕ, ◌≡◌, ◌≤◌,
  ◌++◌, arith, ltb, codes, Bool-cases, lower, strip, true, [], ◌∷◌,
}
use webhook_relay_service.Model.Settings.{Settings}
use webhook_relay_service.Model.Rows.{User, Workspace, WorkspaceMembership}
use webhook_relay_service.Model.Db.{Db}
use webhook_relay_service.Http.{Result, raised}
use webhook_relay_service.Auth.{
  Desk, Passwords, UserCreate, check_auth_rate_limit, normalize_email, ok, store_user, register,
  register_checked,
}

module _ (r : Redis) (settings : Settings) (at : Commit) (passwords : Passwords) where
  -- The active user that a registration asks for, whose e-mail is trimmed and in lower case.
  abbrev pub account : UserCreate → User
  account body = record {
    id = at.new_id;
    email = lower (strip body.email);
    display_name = body.display_name;
    password_hash = passwords.hash_password body.password;
    is_active = true;
    created_at = at.now;
  }

  -- The database with that user, a workspace, and the user as its owner.
  abbrev pub with_account : ℕ → Text → Text → UserCreate → Db → Db
  with_account workspace_id name slug body db =
      let workspace : Workspace = record {
        id = workspace_id;
        name = name;
        slug = slug;
        created_at = at.now;
      } in
      let owner : WorkspaceMembership = record {
        user_id = at.new_id;
        workspace_id = workspace_id;
        role = codes "owner";
        joined_at = at.now;
      } in
      record db {
        users = db.users ++ account body ∷ [];
        workspaces = db.workspaces ++ workspace ∷ [];
        memberships = db.memberships ++ owner ∷ [];
      }

  -- What a registration has done, by how it ended.
  abbrev pub Registered : ℕ → UserCreate → Db → Result User × Desk r settings → Type 0
  Registered workspace_id body db (raised e, s') = s'.db ≡ db
  Registered workspace_id body db (ok user, s') =
      (8 ≤ length body.password)
      × (find (λ u. text_eq u.email (lower (strip body.email))) db.users ≡ none)
      × (user ≡ account body)
      × (name : Text) × (slug : Text) × (any (is_slug slug) db.workspaces ≡ false)
      × (s'.db ≡ with_account workspace_id name slug body db)

  pub check-db :
      (client : Option Text) (email action : Text) (s : Desk r settings)
      → (check_auth_rate_limit r settings at client email action s).1.db ≡ s.db
  unfolding check_auth_rate_limit
  check-db client email action s = elim (Option-cases s.redis) [
    | inl off ↦ rw off refl
    | inr (redis, on) ↦ rw on refl
  ]

  store-Registered :
      (str_of : ℕ → Text) (workspace_id : ℕ) (body : UserCreate) (s : Desk r settings)
      → 8 ≤ length body.password
      → find (λ u. text_eq u.email (normalize_email body.email)) s.db.users ≡ none
      → Registered workspace_id body s.db
          (store_user r settings at passwords str_of workspace_id body s)
  unfolding store_user normalize_email
  store-Registered str_of workspace_id body s long free =
      let slug = slugify (body.display_name ++ (codes "-" ++ str_of at.new_id)) in
      elim (Bool-cases (any (is_slug slug) s.db.workspaces)) [
        | inl taken ↦ rw taken refl
        | inr open_slug ↦ elim (Bool-cases at.commits) [
          | inr lost ↦ rw open_slug (rw lost refl)
          | inl done ↦ rw open_slug (
              rw done (
                long,
                free,
                refl,
                body.display_name ++ codes "'s Workspace",
                slug,
                open_slug,
                refl,
              ))
        ]
      ]

  checked-Registered :
      (str_of : ℕ → Text) (workspace_id : ℕ) (body : UserCreate) (s : Desk r settings)
      → Registered workspace_id body s.db
          (register_checked r settings at passwords str_of workspace_id body s)
  unfolding register_checked normalize_email
  checked-Registered str_of workspace_id body s = elim (Bool-cases (ltb (length body.password) 8)) [
    | inl short ↦ rw short refl
    | inr long ↦
        elim (Option-cases (find (λ u. text_eq u.email (normalize_email body.email)) s.db.users)) [
          | inr (user, taken) ↦ rw long (rw taken refl)
          | inl free ↦
              rw long
                (rw free (store-Registered str_of workspace_id body s (ground (arith, long)) free))
        ]
  ]

  limited_then :
      (str_of : ℕ → Text) (workspace_id : ℕ) (client : Option Text) (body : UserCreate)
      (s : Desk r settings) (limited : Result Unit)
      → (check_auth_rate_limit r settings at client body.email (codes "register") s).0 ≡ limited
      → Registered workspace_id body s.db
          (register r settings at passwords str_of workspace_id client body s)
  unfolding register
  limited_then str_of workspace_id client body s (raised e) h =
      simp h (check-db client body.email (codes "register") s)
  limited_then str_of workspace_id client body s (ok _) h =
      let s' = (check_auth_rate_limit r settings at client body.email (codes "register") s).1 in
      simp h (
        subst
          (λ db.
            Registered workspace_id body db
              (register_checked r settings at passwords str_of workspace_id body s'))
          (check-db client body.email (codes "register") s)
          (checked-Registered str_of workspace_id body s'))

  -- A registration that raises leaves the database as it was. One that succeeds had a password of at
  -- least eight characters and an e-mail that, trimmed and in lower case, no user had; it adds one
  -- active user of that e-mail, one workspace whose slug is new, and the user as its owner.
  pub register-Registered :
      (str_of : ℕ → Text) (workspace_id : ℕ) (client : Option Text) (body : UserCreate)
      (s : Desk r settings)
      → Registered workspace_id body s.db
          (register r settings at passwords str_of workspace_id client body s)
  register-Registered str_of workspace_id client body s =
      limited_then str_of workspace_id client body s
        (check_auth_rate_limit r settings at client body.email (codes "register") s).0 refl
