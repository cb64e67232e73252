-- ===== src/Server/Mesh.antt =====
-- server.py: what the routes of the mesh share, from `_node_authorized` to `_rate_limit`. A step that
-- answers the request early raises its answer.
mod State
pub use State.*
pub mod Keeps
pub mod Guards
pub mod Calls
use Prim.Native.String.{◌++◌ as append_text}
use hermes_k2_monitor.Prelude.{
  ℕ, suc, ◌+◌, String, Bool, true, false, not, List, [], ◌∷◌, ◌++◌, Option, none, some, str_eq,
  if◌then◌else◌, Dict,
}
use hermes_k2_monitor.Monad.{Result, ok, raised, Exec, ◌>>=◌, ◌>>◌, pure, raise, modify}
use hermes_k2_monitor.Json.{Json, obj, Fields, get_field}
use hermes_k2_monitor.Trust.{Stamp, Manager, Verdict, TypeError, verified, verify}
use hermes_k2_monitor.RateLimit.{Limiter, Decision, check}
use hermes_k2_monitor.Vault.{VaultError, Vault}
use hermes_k2_monitor.Vault.Audit.{audit_status}
use hermes_k2_monitor.Relay.{Io}
use hermes_k2_monitor.Auth.{Crypto, Auth}
use hermes_k2_monitor.Auth.Tokens.{verify_token}
use hermes_k2_monitor.Server.Gates.{Gate, Request, bearer, client_ip, owner_authorized}
use hermes_k2_monitor.Server.Feeds.{push_activity}
use hermes_k2_monitor.Server.Forward.{Hub}

module _ {M : Type 0} where
  abbrev pub broadcast : Frame → Mesh M → Mesh M
  broadcast f s = record s { frames = s.frames ++ f ∷ [] }

  -- `_record_collab_activity`
  unfoldable pub record_activity : String → Activity → Mesh M → Mesh M
  record_activity now a s =
      broadcast (collab_activity_frame now a)
        (record s { collab_activity = push_activity (now, a) s.collab_activity })

  -- `_json_body` of the value that the body is, `none` if it is no JSON
  unfoldable pub json_body : Option Json → Route M Fields
  json_body none = raise (error 400 "invalid JSON")
  json_body (some (obj b)) = pure b
  json_body (some _) = raise (error 400 "JSON object required")

  abbrev pub lift : {A : Type 0} → (VaultError → Reply) → Result VaultError A → Route M A
  lift answer (ok a) = pure a
  lift answer (raised x) = raise (answer x)

  -- A call of the vault, and the answer for its VaultError.
  unfoldable pub vault_call :
      {A : Type 0} → (VaultError → Reply) → Exec VaultError Vault A → Route M A
  vault_call answer call s =
      let (o, v) = call s.auth.vault in
      lift answer o (record s { auth = record (s.auth) { vault = v } })

module _ {M : Type 0} (out : Outside M) (t : Times) where
  abbrev pub iso_time : String
  iso_time = out.crypto.iso t.event

  -- `collab_vault.collab_state()`, which checks the audit chain on the way
  abbrev pub after_state : Mesh M → Mesh M
  after_state s = record s {
    auth = record (s.auth) { vault = (audit_status out.digest s.auth.vault).1 };
  }

  -- `_node_authorized`, with the 403 of its callers for no node id or an empty one
  unfoldable pub node_authorized : Request → Route M String
  node_authorized r s =
      let (o, a) = verify_token out.crypto t.caller (bearer r) s.auth in
      let s' = record s { auth = a } in
      elim o [
        | raised e ↦ (raised crashed, s')
        | ok none ↦ (raised (error 403 "forbidden"), s')
        | ok (some id) ↦ if str_eq id "" then (raised (error 403 "forbidden"), s') else (ok id, s')
      ]

  -- `_owner_authorized`, with the 403 of its callers
  unfoldable pub require_owner : Request → Route M Unit
  require_owner r s = elim (owner_authorized out.gate r) [
    | raised e ↦ (raised crashed, s)
    | ok false ↦ (raised (error 403 "forbidden"), s)
    | ok true ↦ (ok tt, s)
  ]

  -- what `_rate_limit` does with the decision for a peer
  unfoldable pub decide : String → String → Option (Limiter × Decision) → Route M Unit
  unfolding record_activity
  decide scope peer none s = (raised crashed, s)
  decide scope peer (some (l, d)) s =
      if d.allowed then (ok tt, record s { rate_limiter = l }) else (
        raised (too_many d.retry_after d.limit l.window_seconds),
        record_activity iso_time (rate_limit scope peer d.retry_after) (record s {
          rate_limiter = l;
          rate_limit_429 = suc s.rate_limit_429;
          last_rate_limit_429 = some iso_time;
        }),
      )

  -- `_rate_limit` with the peer that it counts
  unfoldable pub limit_peer : String → String → Route M Unit
  unfolding decide
  limit_peer scope peer s =
      decide scope peer (check (append_text scope (append_text ":" peer)) t.limiter s.rate_limiter)
        s

  -- `_rate_limit` without an identity
  abbrev pub limit_request : Request → String → Route M Unit
  limit_request r scope = limit_peer scope (client_ip out.gate r)

  -- what `_rate_limit_ws` does with the decision for a peer
  unfoldable pub decide_link : String → Option (Limiter × Decision) → Route M Unit
  unfolding record_activity
  decide_link peer none s = (raised crashed, s)
  decide_link peer (some (l, d)) s =
      if d.allowed then (ok tt, record s { ws_rate_limiter = l }) else (
        raised dropped,
        record_activity iso_time (rate_limit "wsrelay" peer d.retry_after)
            (record s { ws_rate_limiter = l; rate_limit_429 = suc s.rate_limit_429 }),
      )

  -- `_rate_limit_ws`, with the `continue` of its caller
  unfoldable pub limit_link : String → Route M Unit
  unfolding decide_link
  limit_link peer s =
      decide_link peer (check (append_text "wsrelay:" peer) t.limiter s.ws_rate_limiter) s

  -- the 403 of the callers of `mesh_trust.verify` for all that it does not verify
  unfoldable pub judged :
      String → Fields → Result TypeError (Verdict × Option String) → Route M String
  unfolding record_activity
  judged node body (ok (verified, some signed)) s = (ok signed, s)
  judged node body (ok (v, _)) s =
      (raised (rejected v), record_activity iso_time (tamper node (get_field "op" body) v) s)
  judged node body (raised e) s = (raised crashed, s)

  -- `mesh_trust.verify(body, expected_node_id=node_id)`
  unfoldable pub verify_body : String → Fields → Route M String
  unfolding judged
  verify_body node body s =
      let (o, m) =
        verify out.float_of out.text_of out.canonical out.hmac out.internal_ip t.envelope t.nonces
          (some node) (obj body) s.trust in
      judged node body o (record s { trust = m })
