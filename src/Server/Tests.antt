-- ===== src/Server/Tests.antt =====
-- server.py: the gates, the feeds and the links of a peer on concrete values.
use hermes_k2_monitor.Prelude.{◌+◌, ◌*◌, ◌≡◌, ◌≢◌, ◌⊎◌, refl, String, true, [], none, some, arith}
use hermes_k2_monitor.Text.{or_text, lower_code, compare_digest}
use hermes_k2_monitor.Server.Gates.{Request, Gate, bearer, write_supplied, write_allowed, client_ip}
use hermes_k2_monitor.Server.Gates.Credentials.{write_allowed_lem}
use hermes_k2_monitor.Server.Slots.{count_of}
use hermes_k2_monitor.Server.Slots.Overrun.{dials, handshake_overrun}

abbrev gate : Gate
gate = record {
  view_token = "view";
  write_token = "write";
  trust_xff = true;
  owner_token = "owner";
}

-- A request that brings "Bearer write".
abbrev request : Request
request = record {
  authorization = some "Bearer write";
  x_mesh_token = none;
  x_collab_owner = none;
  x_view_token = some "view";
  x_write_token = none;
  x_forwarded_for = some " 9.9.9.9 , 1.1.1.1";
  query_token = none;
  query_wt = none;
  remote = some "10.0.0.1";
}

client_ip-forwarded : client_ip gate request ≡ "9.9.9.9"
unfolding client_ip
client_ip-forwarded = refl

write_allowed_lem_example :
    ((s : String) × (write_supplied request ≡ some s) × (s ≡ gate.write_token) × (s ≢ ""))
    ⊎ ((s : String) × (or_text request.x_collab_owner (bearer request) ≡ some s)
        × (s ≡ gate.owner_token)
        × (s ≢ ""))
unfolding write_allowed write_supplied bearer lower_code compare_digest
write_allowed_lem_example = write_allowed_lem gate request refl

handshake_overrun_example :
    count_of "node-1"
      (dials 2 "node-1" (2 + 2 * 3) (record { ws_relay_conns = []; streaming = [] })).streaming
    ≡ 2 + 3
handshake_overrun_example = handshake_overrun 2 3 "node-1" refl (omega arith)
