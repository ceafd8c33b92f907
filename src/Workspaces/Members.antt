-- ===== src/Workspaces/Members.antt =====
-- app/api/workspaces.py: the members of a workspace and their roles.
use webhook_relay_service.Workspaces.{Commit, commit}
use webhook_relay_service.Rbac.{Tokens, require_workspace_role}
use webhook_relay_service.Prelude.{
  Bool, List, Option, Text, [], codes, false, find, if◌then◌else◌, none, not, one_of, some, text_eq,
  true, ℕ, ◌++◌, ◌==◌, ◌∷◌,
}
use webhook_relay_service.Model.Rows.{User, WorkspaceMembership}
use webhook_relay_service.Model.Db.{Db, is_member, membership_by_id, user_by_id}
use webhook_relay_service.Http.Action.{Action, gets, lift}
use webhook_relay_service.Http.{Result, or_raise, raise_if}
use webhook_relay_service.Http.Action.{◌>>=◌, ◌>>◌}

pub record WorkspaceMembershipOut : Type 0 where
  pub user_id : ℕ
  pub workspace_id : ℕ
  pub role : Text
  pub joined_at : ℕ
  pub email : Option Text
  pub display_name : Option Text

-- The roles that a member can be given.
abbrev pub given_roles : List Text
given_roles = codes "admin" ∷ codes "member" ∷ codes "viewer" ∷ []

abbrev pub check_role : Text → Result (Unit {0})
check_role role =
    raise_if (not (one_of role given_roles)) 400 "role must be admin, member, or viewer"

abbrev pub user_by_email : Text → Db → Option User
user_by_email email db = find (λ u. text_eq u.email email) db.users

-- `user.email if user else None`.
abbrev pub field_of : (User → Text) → Option User → Option Text
field_of f none = none
field_of f (some user) = some (f user)

abbrev pub member_out : WorkspaceMembership → Option User → WorkspaceMembershipOut
member_out m user = record {
  user_id = m.user_id;
  workspace_id = m.workspace_id;
  role = m.role;
  joined_at = m.joined_at;
  email = field_of (λ u. u.email) user;
  display_name = field_of (λ u. u.display_name) user;
}

-- The row of the same primary key gets a role, or goes.
abbrev pub set_role : ℕ → ℕ → Text → List WorkspaceMembership → List WorkspaceMembership
set_role user_id workspace_id role [] = []
set_role user_id workspace_id role (m ∷ ms) =
    let rest = set_role user_id workspace_id role ms in
    if is_member user_id workspace_id m then record m { role = role } ∷ ms else m ∷ rest

abbrev pub without_member : ℕ → ℕ → List WorkspaceMembership → List WorkspaceMembership
without_member user_id workspace_id [] = []
without_member user_id workspace_id (m ∷ ms) =
    let rest = without_member user_id workspace_id ms in
    if is_member user_id workspace_id m then ms else m ∷ rest

abbrev pub is_some : Option WorkspaceMembership → Bool
is_some none = false
is_some (some m) = true

abbrev pub is_owner : WorkspaceMembership → Bool
is_owner m = text_eq m.role (codes "owner")

module _ (tokens : Tokens) (at : Commit) where
  -- `_parse_uuid`.
  abbrev pub parse_user_id : Text → Result ℕ
  parse_user_id value = or_raise (tokens.parse_uuid value) 400 "invalid user_id format"

  -- The body of `add_member`, for the membership of the caller.
  unfoldable pub add_member_as :
      WorkspaceMembership → Text → Text → Action Db WorkspaceMembershipOut
  add_member_as caller email role = do
    lift (check_role role)
    found ← gets (user_by_email email)
    user ← lift (or_raise found 404 "user not found")
    existing ← gets (membership_by_id user.id caller.workspace_id)
    lift (raise_if (is_some existing) 409 "user is already a member")
    let membership : WorkspaceMembership = record {
      user_id = user.id;
      workspace_id = caller.workspace_id;
      role = role;
      joined_at = at.now;
    }
    λ db.
        commit at (member_out membership (some user))
          (record db { memberships = db.memberships ++ membership ∷ [] }) db

  unfoldable pub update_member_role_as :
      WorkspaceMembership → Text → Text → Action Db WorkspaceMembershipOut
  update_member_role_as caller user_id role = do
    lift (check_role role)
    target_uid ← lift (parse_user_id user_id)
    found ← gets (membership_by_id target_uid caller.workspace_id)
    membership ← lift (or_raise found 404 "membership not found")
    lift (raise_if (is_owner membership) 403 "cannot change owner role")
    λ db.
        commit at (member_out (record membership { role = role }) (user_by_id target_uid db))
          (record db { memberships = set_role target_uid caller.workspace_id role db.memberships })
          db

  unfoldable pub remove_member_as : WorkspaceMembership → Text → Action Db Unit
  remove_member_as caller user_id = do
    target_uid ← lift (parse_user_id user_id)
    found ← gets (membership_by_id target_uid caller.workspace_id)
    membership ← lift (or_raise found 404 "membership not found")
    lift (raise_if (is_owner membership) 403 "cannot remove owner")
    λ db.
        commit at tt
          (record db { memberships = without_member target_uid caller.workspace_id db.memberships })
          db

  -- The dependency `require_workspace_role(role)` comes before the body.
  abbrev pub with_role :
      {A : Type 0} → Text → Text → User → (WorkspaceMembership → Action Db A) → Action Db A
  with_role role workspace_id user body db =
      ((lift (require_workspace_role tokens role workspace_id user db)) >>= body) db

  unfoldable pub add_member : Text → User → Text → Text → Action Db WorkspaceMembershipOut
  add_member workspace_id user email role =
      with_role (codes "admin") workspace_id user (λ caller. add_member_as caller email role)

  unfoldable pub update_member_role : Text → User → Text → Text → Action Db WorkspaceMembershipOut
  update_member_role workspace_id user user_id role =
      with_role (codes "admin") workspace_id user
        (λ caller. update_member_role_as caller user_id role)

  unfoldable pub remove_member : Text → User → Text → Action Db Unit
  remove_member workspace_id user user_id =
      with_role (codes "admin") workspace_id user (λ caller. remove_member_as caller user_id)

  -- The rows of the join, in the order of the memberships.
  abbrev pub members_of : ℕ → List User → List WorkspaceMembership → List WorkspaceMembershipOut
  members_of workspace_id users [] = []
  members_of workspace_id users (m ∷ ms) =
      let rest = members_of workspace_id users ms in
      if m.workspace_id == workspace_id
      then elim (find (λ (u : User). u.id == m.user_id) users) [
        | none ↦ rest
        | some u ↦ member_out m (some u) ∷ rest
      ]
      else rest

  unfoldable pub list_members : Text → User → Action Db (List WorkspaceMembershipOut)
  list_members workspace_id user =
      with_role (codes "viewer") workspace_id user
        (λ caller. gets (λ db. members_of caller.workspace_id db.users db.memberships))
