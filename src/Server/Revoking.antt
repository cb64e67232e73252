-- ===== src/Server/Revoking.antt =====
-- server.py, `api_mesh_prepare_revoke` and `api_mesh_revoke`: the owner revokes a node in two steps.
pub mod Denied
use Prim.Native.String.{◌++◌ as append_text}
use hermes_k2_monitor.Prelude.{
  ℕ, ◌+◌, String, Bool, true, false, not, ◌||◌, List, [], ◌∷◌, ◌++◌, Option, none, some, ltb,
  str_eq, if◌then◌else◌, lookup, insert, erase,
}
use hermes_k2_monitor.Monad.{Result, ok, raised, Exec, ◌>>=◌, ◌>>◌, pure, raise}
use hermes_k2_monitor.Json.{Json, Fields, get_field, is_text}
use hermes_k2_monitor.Trust.{text_field}
use hermes_k2_monitor.Auth.Tokens.{revoke_node}
use hermes_k2_monitor.Server.Gates.{Request}
use hermes_k2_monitor.Server.Mesh.{
  Outside, Mesh, Challenge, Times, Route, Reply, error, crashed, challenge_issued, revoked_node,
  Activity, kill_switch, Frame, collab_node, broadcast, record_activity, json_body, iso_time,
  after_state, require_owner, limit_request,
}

-- `mesh_challenges.pop(challenge, None)` for a text
unfoldable pub pop_challenge : {M : Type 0} → Option String → Route M (Option Challenge)
pop_challenge none s = (ok none, s)
pop_challenge (some c) s =
    (ok (lookup c s.mesh_challenges), record s { mesh_challenges = erase c s.mesh_challenges })

-- The tests of `api_mesh_revoke` on what was popped: the node that may be revoked.
unfoldable pub confirm : {M : Type 0} → Times → Fields → Option Challenge → Route M String
confirm t b none s = (raised (error 403 "invalid or expired mesh challenge"), s)
confirm t b (some c) s =
    if ltb c.expires_at t.caller || not (is_text c.node_id (get_field "node_id" b))
    then (raised (error 403 "invalid or expired mesh challenge"), s)
    else if not (is_text c.phrase (get_field "confirmation" b))
        || not (is_text "CONFIRM MESH REVOKE" (get_field "mesh_confirmation" b))
    then (raised (error 400 "mesh confirmation mismatch"), s)
    else (ok c.node_id, s)

module _ {M : Type 0} (out : Outside M) (t : Times) where
  -- The challenge for a node, if the node is in the vault; `secret` is the fresh challenge.
  unfoldable pub issue_challenge : String → Option String → Route M Reply
  unfolding record_activity
  issue_challenge secret none s = (raised (error 404 "node not found"), s)
  issue_challenge secret (some id) s = elim (lookup id s.auth.vault.state.nodes) [
    | none ↦ (raised (error 404 "node not found"), after_state out t s)
    | some _ ↦
        let phrase = append_text "REVOKE " id in
        let c : Challenge = record {
          node_id = id;
          phrase = phrase;
          expires_at = t.caller + 60000;
        } in
        (
          ok (challenge_issued secret phrase),
          record_activity (iso_time out t) (kill_switch id "challenge_issued")
              (record (after_state out t s) {
                mesh_challenges = insert secret c s.mesh_challenges;
              }),
        )
  ]

  -- `api_mesh_prepare_revoke`
  unfoldable pub api_mesh_prepare_revoke : String → Request → Option Json → Route M Reply
  unfolding json_body require_owner issue_challenge
  api_mesh_prepare_revoke secret r body = do
    limit_request out t r "mesh-revoke-prepare"
    require_owner out t r
    b ← json_body body
    issue_challenge secret (text_field (get_field "node_id" b))

  -- `mesh_auth.revoke_node`, and what is told of it
  unfoldable pub revoke_confirmed : String → Route M Reply
  unfolding record_activity
  revoke_confirmed id s =
      let (o, a) = revoke_node out.crypto t.event id s.auth in
      let s' = record s { auth = a } in
      elim o [
        | raised e ↦ (raised crashed, s')
        | ok false ↦ (raised (error 404 "node not found"), s')
        | ok true ↦ (
          ok (revoked_node id),
          record_activity (iso_time out t) (kill_switch id "revoked")
              (broadcast (collab_node id "revoked" (iso_time out t)) s'),
        )
      ]

  -- `api_mesh_revoke`
  unfoldable pub api_mesh_revoke : Request → Option Json → Route M Reply
  unfolding json_body require_owner pop_challenge confirm revoke_confirmed
  api_mesh_revoke r body = do
    limit_request out t r "mesh-revoke-confirm"
    require_owner out t r
    b ← json_body body
    c ← pop_challenge (text_field (get_field "challenge" b))
    id ← confirm t b c
    revoke_confirmed id
