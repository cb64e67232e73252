-- ===== src/Server/RouteTests/Joining.antt =====
-- server.py: api_join on a concrete state.
use hermes_k2_monitor.Prelude.{
  ℕ, ◌≡◌, refl, String, false, [], ◌∷◌, Option, none, some, arith, eq_refl, lookup, insert,
}
use hermes_k2_monitor.Monad.{ok}
use hermes_k2_monitor.Json.{Json, str, obj, end, field, Fields, get_field}
use hermes_k2_monitor.Text.{lower_code}
use hermes_k2_monitor.RateLimit.{check, admit}
use hermes_k2_monitor.Identity.{issue, is_valid_id}
use hermes_k2_monitor.Vault.Nodes.{register_node}
use hermes_k2_monitor.Auth.Codes.{Joined, use_up, is_valid_node_id, new_code, join}
use hermes_k2_monitor.Server.Gates.{bearer, client_ip}
use hermes_k2_monitor.Server.Mesh.{
  Mesh, limit_peer, decide, json_body, record_activity, node_authorized,
}
use hermes_k2_monitor.Server.Joining.{auth_call, join_values, api_join}
use hermes_k2_monitor.Server.Joining.Admitted.{node_authorized-api_join}
use hermes_k2_monitor.Server.RouteTests.State.{crypto, outside, times, mesh, request}

-- The code "c" is open for any node.
abbrev inviting : Mesh Fields
inviting = record mesh {
  auth = record (mesh.auth) { join_codes = some (new_code crypto 0 "c" none 300 ∷ []) };
}

abbrev application : Json
application = obj (field "node_id" (str "node-2") (field "conn_code" (str "c") end))

abbrev no_number : String → Option ℕ
no_number s = none

abbrev receipt : Joined
receipt = record {
  node_id = "node-2";
  token = "tok2";
  expires_at = 86400500;
  certificate = record {
    node_id = "node-2";
    public_key = "key";
    issued_at = 500;
    expires_at = 1000500;
    revoked = false;
    signature = "node-2";
  };
}

-- After the node has joined, and a caller has been refused.
abbrev later_mesh : Mesh Fields
later_mesh =
    record ((api_join outside no_number no_number times "tok2" "key" (request none)
      (some application) inviting).1) { rate_limit_429 = 1 }

node_authorized-api_join_example :
    (node_authorized outside times (request (some "tok2")) later_mesh).0 ≡ ok "node-2"
unfolding api_join limit_peer decide check admit client_ip json_body join_values auth_call join
    is_valid_node_id use_up issue is_valid_id register_node lookup insert get_field record_activity
    bearer lower_code
node_authorized-api_join_example =
    node_authorized-api_join outside no_number no_number times times "tok2" "key" (request none)
      (request (some "tok2")) (some application) inviting later_mesh receipt _ [] eq_refl refl
      (record { tokens = refl; revoked_nodes = refl; identity = refl; active = refl }) refl refl
      refl refl refl refl (omega arith) (omega arith)
