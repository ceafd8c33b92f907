-- ===== src/Workspaces/Requests.antt =====
-- A whole request on the members of a workspace: the role check, then the handler.
use webhook_relay_service.Workspaces.Owners.{
  KeepsOthers, MemberRequest, add_as-KeepsOthers, after, find-passes, remove, remove_as-KeepsOthers,
  update, update_as-KeepsOthers, add,
}
use webhook_relay_service.Workspaces.Members.{
  add_member, remove_member, update_member_role, with_role,
}
use webhook_relay_service.Workspaces.{Commit}
use webhook_relay_service.Rbac.Access.{require_admin, require_role_iff}
use webhook_relay_service.Rbac.{Tokens, require_workspace_role}
use webhook_relay_service.Prelude.{Text, arith, codes, inl, inr, refl, some, ℕ, ◌≡◌, ◌⊎◌}
use webhook_relay_service.Model.Rows.{User, WorkspaceMembership}
use webhook_relay_service.Model.Db.{Db, is_member, membership_by_id}
use webhook_relay_service.Http.Action.{Action}
use webhook_relay_service.Http.{Result, raised, ok}
use mathlib.Core.Path.{subst}

-- The workspace that a request names.
abbrev pub place : MemberRequest → Text
place (add workspace_id email role) = workspace_id
place (update workspace_id user_id role) = workspace_id
place (remove workspace_id user_id) = workspace_id

-- Nothing changed, or the caller is an admin or the owner of the workspace that the request names,
-- and neither the owners nor the members of other workspaces changed.
abbrev pub IsManaged : Tokens → User → Text → Db → Db → Type 0
IsManaged tokens user workspace_id db db' =
    (db' ≡ db)
    ⊎ ((ws_id : ℕ) × (caller : WorkspaceMembership) × (tokens.parse_uuid workspace_id ≡ some ws_id)
        × (membership_by_id user.id ws_id db ≡ some caller)
        × ((caller.role ≡ codes "admin") ⊎ (caller.role ≡ codes "owner"))
        × KeepsOthers ws_id db db')

module _ (tokens : Tokens) (at : Commit) (user : User) (db : Db) where
  caller_place :
      (ws_id : ℕ) (caller : WorkspaceMembership)
      → membership_by_id user.id ws_id db ≡ some caller
      → caller.workspace_id ≡ ws_id
  unfolding membership_by_id
  caller_place ws_id caller found =
      let passes = find-passes (is_member user.id ws_id) db.memberships caller found in
      ground (arith, passes)

  checked_then :
      {A : Type 0} (workspace_id : Text) (body : WorkspaceMembership → Action Db A)
      (checked : Result WorkspaceMembership)
      → require_workspace_role tokens (codes "admin") workspace_id user db ≡ checked
      → ((caller : WorkspaceMembership) → KeepsOthers caller.workspace_id db (body caller db).1)
      → IsManaged tokens user workspace_id db
          (with_role tokens at (codes "admin") workspace_id user body db).1
  checked_then workspace_id body (raised e) h keeps = rw h (inl refl)
  checked_then workspace_id body (ok caller) h keeps =
      let (ws_id, parsed, found, level) =
        (require_role_iff tokens workspace_id user db caller (codes "admin")).0 h in
      rw h (
        inr (
          ws_id,
          caller,
          parsed,
          found,
          require_admin tokens workspace_id user db caller h,
          subst (λ id. KeepsOthers id db (body caller db).1) (caller_place ws_id caller found)
              (keeps caller),
        ))

  -- A request on members, whoever makes it and whatever it asks, changes the database only for an
  -- admin or the owner of the workspace that it names. Even then no owner is added, removed or
  -- changed, and no membership of another workspace is.
  pub after-IsManaged :
      (q : MemberRequest) → IsManaged tokens user (place q) db (after tokens at user q db)
  unfolding add_member update_member_role remove_member
  after-IsManaged (add workspace_id email role) =
      checked_then workspace_id _ _ refl
        (λ caller. add_as-KeepsOthers tokens at caller db email role)
  after-IsManaged (update workspace_id user_id role) =
      checked_then workspace_id _ _ refl
        (λ caller. update_as-KeepsOthers tokens at caller db user_id role)
  after-IsManaged (remove workspace_id user_id) =
      checked_then workspace_id _ _ refl
        (λ caller. remove_as-KeepsOthers tokens at caller db user_id)
