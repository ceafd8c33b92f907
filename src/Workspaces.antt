-- ===== src/Workspaces.antt =====
-- app/api/workspaces.py: the workspaces of a user and their members. An exception that is not caught
-- is the status 500.
pub mod Lazy
mod Examples
pub mod Requests
pub mod Owners
use webhook_relay_service.Prelude.{
  Bool, List, Option, Text, [], any, codes, if◌then◌else◌, keep, leb, lower, map, some, take,
  text_eq, ℕ, ◌&&◌, ◌++◌, ◌-◌, ◌==◌, ◌||◌, ◌∷◌,
}
use webhook_relay_service.Model.Rows.{User, Workspace, WorkspaceMembership, failed}
use webhook_relay_service.Model.Db.{Db}
use webhook_relay_service.Http.Action.{Action}
use webhook_relay_service.Http.{http_error, ok}
pub mod Members

-- What the environment of a request decides: the time, the id of a new workspace, and whether the
-- commit goes through.
pub record Commit : Type 0 where
  pub now : ℕ
  pub new_id : ℕ
  pub commits : Bool

pub record WorkspaceOut : Type 0 where
  pub id : ℕ
  pub name : Text
  pub slug : Text
  pub created_at : ℕ
  pub role : Option Text

-- `name.lower().replace(" ", "-")`, without what is not a-z, 0-9 or "-".
abbrev pub slug_code : ℕ → ℕ
slug_code c = if c == b' ' then b'-' else c

abbrev pub is_slug_code : ℕ → Bool
is_slug_code c = (leb b'a' c && leb c b'z') || (leb b'0' c && leb c b'9') || c == b'-'

abbrev pub or_workspace : Text → Text
or_workspace [] = codes "workspace"
or_workspace (c ∷ t) = c ∷ t

unfoldable pub slugify : Text → Text
unfolding lower
slugify name = or_workspace (take 63 (keep is_slug_code (map slug_code (lower name))))

-- `order_by(Workspace.created_at.desc())`.
abbrev pub insert_newest : WorkspaceOut → List WorkspaceOut → List WorkspaceOut
insert_newest x [] = x ∷ []
insert_newest x (y ∷ ys) =
    let rest = insert_newest x ys in if leb y.created_at x.created_at then x ∷ y ∷ ys else y ∷ rest

abbrev pub sort_newest : List WorkspaceOut → List WorkspaceOut
sort_newest [] = []
sort_newest (x ∷ xs) = insert_newest x (sort_newest xs)

-- The rows of the join for one membership.
abbrev pub joined_rows : WorkspaceMembership → List Workspace → List WorkspaceOut
joined_rows m [] = []
joined_rows m (ws ∷ rest) =
    let later = joined_rows m rest in
    if ws.id == m.workspace_id
    then record {
      id = ws.id;
      name = ws.name;
      slug = ws.slug;
      created_at = ws.created_at;
      role = some m.role;
    }
      ∷ later
    else later

abbrev pub joined : List WorkspaceMembership → List Workspace → List WorkspaceOut
joined [] workspaces = []
joined (m ∷ ms) workspaces = joined_rows m workspaces ++ joined ms workspaces

unfoldable pub list_workspaces : User → Db → List WorkspaceOut
list_workspaces user db =
    sort_newest (joined (keep (λ m. m.user_id == user.id) db.memberships) db.workspaces)

-- A commit that fails leaves the database as it was.
unfoldable pub commit : {A : Type 0} → Commit → A → Db → Action Db A
commit at result db' db =
    if at.commits then (ok result, db') else (http_error 500 "commit failed", db)

abbrev pub is_slug : Text → Workspace → Bool
is_slug slug ws = text_eq slug ws.slug

-- The workspace and its owner, in one transaction; a slug that is taken violates its constraint.
unfoldable pub create_workspace : (ℕ → Text) → Commit → User → Text → Action Db WorkspaceOut
unfolding slugify
create_workspace str_of at user name db =
    let slug = slugify (name ++ (codes "-" ++ str_of user.id)) in
    if any (is_slug slug) db.workspaces
    then (http_error 500 "IntegrityError", db)
    else commit at
        (record {
          id = at.new_id;
          name = name;
          slug = slug;
          created_at = at.now;
          role = some (codes "owner");
        })
        (record db {
          workspaces =
              db.workspaces
              ++ record { id = at.new_id; name = name; slug = slug; created_at = at.now } ∷ [];
          memberships =
              db.memberships
              ++ record {
                user_id = user.id;
                workspace_id = at.new_id;
                role = codes "owner";
                joined_at = at.now;
              }
                ∷ [];
        })
        db
