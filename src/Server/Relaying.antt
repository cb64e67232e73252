-- ===== src/Server/Relaying.antt =====
-- server.py, `api_relay` and the loop of `api_ws_relay`: a signed event enters the ledger and goes on
-- to the partners.
pub mod Append
pub mod Ledger
pub mod Links
pub mod Arrival
use hermes_k2_monitor.Prelude.{
  ℕ, String, Bool, true, false, List, [], ◌∷◌, ◌++◌, Option, none, some, str_eq, if◌then◌else◌,
}
use hermes_k2_monitor.Monad.{Result, ok, raised, Exec, ◌>>=◌, ◌>>◌, pure, raise, modify}
use hermes_k2_monitor.Json.{Json, str, obj, Fields, end, get_field, truthy}
use hermes_k2_monitor.Trust.{text_field, dict_field}
use hermes_k2_monitor.Vault.{VaultError}
use hermes_k2_monitor.Vault.Events.{append_event}
use hermes_k2_monitor.Server.Gates.{Request}
use hermes_k2_monitor.Server.Forward.{relay_forward}
use hermes_k2_monitor.Server.Mesh.{
  Outside, Mesh, Times, Route, Reply, crashed, dropped, unavailable, relayed, Activity, audit,
  Frame, collab_event, mesh_message, broadcast, record_activity, json_body, iso_time,
  node_authorized, limit_peer, limit_link, verify_body,
}

-- What the vault is given: `body["op"]`, `body["payload"]` and `body["sig"]`.
pub record Event : Type 0 where
  pub op : String
  pub payload : Fields
  pub sig : String

-- `none` is an absent key, or a value of a type that `verify` refuses.
unfoldable pub event_of : Fields → Option Event
event_of body = elim (text_field (get_field "op" body)) [
  | none ↦ none
  | some op ↦ elim (dict_field (get_field "payload" body)) [
    | none ↦ none
    | some payload ↦ elim (text_field (get_field "sig" body)) [
      | none ↦ none
      | some sig ↦ some (record { op = op; payload = payload; sig = sig })
    ]
  ]
]

-- `a or b` of two `.get`s
abbrev or_else : Option Json → Json → Json
or_else none w = w
or_else (some v) w = if truthy v then v else w

-- `p.get("text") or p.get("message") or ""`
abbrev message_text : Fields → Json
message_text p = or_else (get_field "text" p) (or_else (get_field "message" p) (str ""))

-- the arguments of `append_event`, and what becomes of the KeyError
unfoldable pub take_event : {M : Type 0} → Reply → Fields → Route M Event
take_event missing body = elim (event_of body) [ none ↦ raise missing | some e ↦ pure e ]

-- the answer of the callers of `append_event` for a VaultError
unfoldable pub answered : {M : Type 0} → Result VaultError Fields → Route M Fields
answered (ok entry) s = (ok entry, s)
answered (raised x) s = (raised (unavailable x), s)

module _ {M : Type 0} (out : Outside M) (t : Times) where
  -- `collab_vault.append_event`
  unfoldable pub append : String → String → Event → Route M Fields
  unfolding answered
  append uuid signed e s =
      let (o, v) =
        append_event out.digest out.text_of uuid (iso_time out t) signed e.op e.payload e.sig
          s.auth.vault in
      answered o (record s { auth = record (s.auth) { vault = v } })

  -- `broadcast` of the entry, and the activity about it
  unfoldable pub announce : Fields → Mesh M → Mesh M
  unfolding record_activity
  announce entry s =
      record_activity (iso_time out t)
        (audit (get_field "node" entry) (get_field "op" entry) (get_field "id" entry))
        (broadcast (collab_event entry) s)

  -- The dashboard is told of a "message".
  abbrev announce_message : Event → Fields → Mesh M → Mesh M
  announce_message e entry s =
      if str_eq e.op "message"
      then broadcast
          (mesh_message (get_field "node" entry) (message_text e.payload) (get_field "ts" entry)) s
      else s

  -- `_relay_forward`, whose exceptions are dropped
  abbrev pass_on : Event → Mesh M → Mesh M
  pass_on e s = record s {
    hub = (relay_forward out.io out.sign out.running e.op e.payload s.hub).1;
  }

  -- The end of `api_relay`, once the entry is in the ledger.
  unfoldable pub publish : Event → Fields → Route M Reply
  unfolding announce
  publish e entry s =
      (ok (relayed (get_field "id" entry)), pass_on e (announce_message e entry (announce entry s)))

  -- `api_relay`; `uuid` is the fresh id of the entry, `body` the value of the body
  unfoldable pub api_relay : String → Request → Option Json → Route M Reply
  unfolding node_authorized limit_peer json_body verify_body take_event append publish
  api_relay uuid r body = do
    node ← node_authorized out t r
    limit_peer out t "relay" node
    b ← json_body body
    signed ← verify_body out t node b
    e ← take_event crashed b
    entry ← append uuid signed e
    publish e entry

  -- A frame that holds a text, in the loop of `api_ws_relay`. `crashed` ends the link; whatever else is
  -- raised passes over the frame.
  unfoldable pub receive : String → String → Option Json → Route M Unit
  unfolding limit_link json_body verify_body take_event append announce
  receive uuid peer frame = do
    limit_link out t peer
    b ← json_body frame
    signed ← verify_body out t peer b
    e ← take_event dropped b
    entry ← append uuid signed e
    modify (announce entry)
