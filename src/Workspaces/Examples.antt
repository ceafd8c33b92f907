-- ===== src/Workspaces/Examples.antt =====
-- The owner adds a member, who may not remove her.
use webhook_relay_service.Workspaces.Requests.{IsManaged, after-IsManaged}
use webhook_relay_service.Workspaces.Owners.{MemberRequest, after, add}
use webhook_relay_service.Workspaces.Members.{add_member, add_member_as}
use webhook_relay_service.Workspaces.{Commit, commit}
use webhook_relay_service.Samples.{alice, alice_owns, tokens, db}
use webhook_relay_service.Rbac.{get_workspace_membership, level_of, require_workspace_role}
use webhook_relay_service.Prelude.{[], codes, refl, text_eq, true, ◌∷◌, ◌≡◌}
use webhook_relay_service.Model.Db.{membership_by_id}

abbrev request_time : Commit
request_time = record { now = 100000; new_id = 20; commits = true }

abbrev adds_bob : MemberRequest
adds_bob = add (codes "ws") (codes "bob@shop.example") (codes "viewer")

after-IsManaged_example :
    IsManaged tokens alice (codes "ws") db (after tokens request_time alice adds_bob db)
after-IsManaged_example = after-IsManaged tokens request_time alice db adds_bob

bob_joins :
    (after tokens request_time alice adds_bob db).memberships
    ≡ alice_owns
      ∷ record { user_id = 3; workspace_id = 2; role = codes "viewer"; joined_at = 100000 }
      ∷ []
unfolding add_member add_member_as require_workspace_role get_workspace_membership membership_by_id
    level_of commit text_eq
bob_joins = refl
