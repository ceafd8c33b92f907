-- ===== src/Events/Belonging.antt =====
-- Which events of app/api/events.py belong to a workspace.
use webhook_relay_service.Prelude.{Bool, any, any-keep, any-map, keep, ℕ, ◌&&◌, ◌==◌, ◌∙◌, ◌≡◌}
use webhook_relay_service.Model.Db.{Db}
use webhook_relay_service.Model.Rows.{Endpoint}
use webhook_relay_service.Events.Listing.{is_among, workspace_endpoint_ids}

-- Whether an id is that of a stored endpoint of a workspace.
abbrev pub belongs : ℕ → Db → ℕ → Bool
belongs ws_id db id = any (λ (ep : Endpoint). ep.workspace_id == ws_id && ep.id == id) db.endpoints

pub is_among-workspace_endpoint_ids :
    (ws_id id : ℕ) (db : Db) → is_among (workspace_endpoint_ids ws_id db) id ≡ belongs ws_id db id
unfolding workspace_endpoint_ids
is_among-workspace_endpoint_ids ws_id id db =
    any-map (λ (ep : Endpoint). ep.id) (λ x. x == id)
      (keep (λ (ep : Endpoint). ep.workspace_id == ws_id) db.endpoints)
    ∙ any-keep (λ (ep : Endpoint). ep.id == id) (λ (ep : Endpoint). ep.workspace_id == ws_id)
        db.endpoints
