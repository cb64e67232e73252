-- ===== src/Server/RouteTests/Owner.antt =====
-- server.py: the routes for the owner on a concrete state.
use hermes_k2_monitor.Prelude.{List, insert, ◌≡◌, refl, [], ◌∷◌, none, some, lookup, erase}
use hermes_k2_monitor.Json.{Json, str, obj, end, field, get_field}
use hermes_k2_monitor.Text.{compare_digest}
use hermes_k2_monitor.RateLimit.{check, admit}
use hermes_k2_monitor.Auth.Tokens.{verify_owner, revoke_node}
use hermes_k2_monitor.Vault.Nodes.{revoke_node as revoke_in_vault}
use hermes_k2_monitor.Server.Gates.{owner_authorized, client_ip}
use hermes_k2_monitor.Server.Mesh.{
  revoked_node, limit_peer, decide, record_activity, require_owner, json_body,
}
use hermes_k2_monitor.Server.Adopting.{api_collab_adopt}
use hermes_k2_monitor.Server.Adopting.Gated.{IsPlaced, Outcome as Adoption, api_collab_adopt_lem}
use hermes_k2_monitor.Server.LocalTasks.{File, read_task, scan_tasks, update_each, update_agents}
use hermes_k2_monitor.Server.Exporting.{api_collab_export}
use hermes_k2_monitor.Server.Exporting.Entry.{Outcome as Export, api_collab_export_lem}
use hermes_k2_monitor.Vault.{Buckets}
use hermes_k2_monitor.Server.Revoking.{pop_challenge, confirm, revoke_confirmed, api_mesh_revoke}
use hermes_k2_monitor.Server.Revoking.Denied.{Revoked, api_mesh_revoke_lem}
use hermes_k2_monitor.Server.RouteTests.State.{outside, times, mesh, mesh-IsClean, request}

abbrev confirmation : Json
confirmation = obj (
    field "challenge" (str "s3cret") (
      field "node_id" (str "node-1") (
        field "confirmation" (str "REVOKE node-1")
          (field "mesh_confirmation" (str "CONFIRM MESH REVOKE") end))))

api_mesh_revoke_lem_example :
    Revoked outside times
      (request none)
      (some confirmation)
      mesh
      (revoked_node "node-1")
      (api_mesh_revoke outside times (request none) (some confirmation) mesh).1
unfolding api_mesh_revoke limit_peer decide record_activity check admit require_owner
    owner_authorized verify_owner compare_digest json_body pop_challenge confirm lookup erase
    get_field revoke_confirmed revoke_node revoke_in_vault client_ip
api_mesh_revoke_lem_example =
    api_mesh_revoke_lem outside times (request none) (some confirmation) mesh
      (revoked_node "node-1") refl

abbrev named : Json
named = obj (field "task_id" (str "t1") end)

outside-IsPlaced : IsPlaced outside
outside-IsPlaced name task files after plain e = cc e

api_collab_adopt_lem_example :
    Adoption outside times
      (request none)
      mesh
      (some named)
      (api_collab_adopt outside times (request none) (some named) mesh)
api_collab_adopt_lem_example =
    api_collab_adopt_lem outside times (request none) (some named) mesh outside-IsPlaced

abbrev files : Buckets (List File)
files = record {
  of_pending = [];
  of_processing =
      record {
        stem = "t2";
        content =
            some (obj (field "assigned_to" (str "hermes1") (field "status" (str "working") end)));
      }
      ∷ [];
  of_finished = record { stem = "t3"; content = none } ∷ [];
}

-- The first agent works on the task, the second one has gone idle.
agents_updated :
    update_agents (scan_tasks files) (
      ("hermes1", record { status = "online"; task = none })
      ∷ ("hermes2", record { status = "working"; task = none })
      ∷ [])
    ≡ ("hermes1", record { status = "working"; task = some (str "t2") })
      ∷ ("hermes2", record { status = "idle"; task = none })
      ∷ []
unfolding update_each scan_tasks read_task get_field insert lookup
agents_updated = refl

api_collab_export_lem_example : Export outside times "u1" "u2" (request none) mesh (
    api_collab_export outside times "u1" "u2" files
      (request none)
      (some (obj (field "task_id" (str "t2") end)))
      mesh)
api_collab_export_lem_example =
    api_collab_export_lem outside times "u1" "u2" files (request none)
      (some (obj (field "task_id" (str "t2") end))) mesh mesh-IsClean
