-- ===== src/Server/RouteTests/Events.antt =====
-- server.py: api_relay, api_ws_relay and api_collab_task on a concrete state.
use hermes_k2_monitor.Prelude.{◌≡◌, refl, some, lookup}
use hermes_k2_monitor.Monad.{ok}
use hermes_k2_monitor.Json.{Json, str, num, obj, end, field, Fields, set_field}
use hermes_k2_monitor.Text.{lower_code}
use hermes_k2_monitor.Identity.{verify as verify_cert_of, verify_cert}
use hermes_k2_monitor.RateLimit.{check, admit}
use hermes_k2_monitor.Auth.Tokens.{verify_token, search_token}
use hermes_k2_monitor.Vault.Nodes.{touch_node}
use hermes_k2_monitor.Server.Gates.{bearer}
use hermes_k2_monitor.Server.Mesh.{
  Mesh, limit_peer, limit_link, decide_link, node_authorized, decide,
}
use hermes_k2_monitor.Server.Relaying.{api_relay, receive}
use hermes_k2_monitor.Server.Relaying.Ledger.{Outcome, api_relay_lem}
use hermes_k2_monitor.Server.Relaying.Links.{receive-api_relay}
use hermes_k2_monitor.Server.Tasks.{act, without_action, api_collab_task}
use hermes_k2_monitor.Server.Tasks.Entry.{Outcome as Filing, api_collab_task_lem}
use hermes_k2_monitor.Server.RouteTests.State.{outside, times, mesh, mesh-IsClean, request}

abbrev hello : Json
hello = obj (
    field "node_id" (str "node-1") (
      field "op" (str "message") (
        field "payload" (obj (field "text" (str "hello") end)) (
          field "nonce" (str "a")
            (field "ts" (num 1000) (field "sig" (str "node-1|message|{}|a|1000") end))))))

api_relay_lem_example :
    Outcome outside times "u1"
      (some hello)
      mesh
      (api_relay outside times "u1" (request (some "tok")) (some hello) mesh)
api_relay_lem_example =
    api_relay_lem outside times "u1" (request (some "tok")) (some hello) mesh mesh-IsClean

known : (node_authorized outside times (request (some "tok")) mesh).0 ≡ ok "node-1"
unfolding node_authorized verify_token search_token lookup bearer lower_code touch_node
    verify_cert_of verify_cert
known = refl

abbrev recognized : Mesh Fields
recognized = (node_authorized outside times (request (some "tok")) mesh).1

receive-api_relay_example :
    let o = receive outside times "u1" "node-1" (some hello) recognized in
    let p = api_relay outside times "u1" (request (some "tok")) (some hello) mesh in
    (o.1.auth ≡ p.1.auth) × (o.1.trust ≡ p.1.trust)
unfolding node_authorized verify_token search_token lookup bearer lower_code touch_node
    verify_cert_of verify_cert limit_peer decide limit_link decide_link check admit
receive-api_relay_example =
    receive-api_relay outside times "u1" (request (some "tok")) "node-1" (some hello) mesh known
      refl refl

abbrev claim : Json
claim = obj (
    field "node_id" (str "node-1") (
      field "op" (str "task") (
        field "payload" (obj (field "action" (str "claim") (field "id" (str "t1") end))) (
          field "nonce" (str "b")
            (field "ts" (num 1000) (field "sig" (str "node-1|task|{}|b|1000") end))))))

act_claim :
    act "node-1"
      (str "claim")
      (without_action (field "action" (str "claim") (field "id" (str "t1") end)))
    ≡ some (
        field "id"
          (str "t1")
          (field "status" (str "processing") (field "claimed_by" (str "node-1") end)))
unfolding act without_action set_field
act_claim = refl

api_collab_task_lem_example :
    Filing outside times "u1" "u2"
      (some claim)
      mesh
      (api_collab_task outside times "u1" "u2" (request (some "tok")) (some claim) mesh)
api_collab_task_lem_example =
    api_collab_task_lem outside times "u1" "u2" (request (some "tok")) (some claim) mesh
      mesh-IsClean
