-- ===== src/Vault/Revocation.antt =====
-- collab/vault.py: revocation over any sequence of the methods that write nodes, tasks and events.
use hermes_k2_monitor.Prelude.{ℕ, ◌≡◌, String}
use mathlib.Core.Path.{subst⁻¹}
use hermes_k2_monitor.Monad.{raised}
use hermes_k2_monitor.Json.{Json, Fields}
use hermes_k2_monitor.Vault.Defs.{node_is_revoked, Vault}
use hermes_k2_monitor.Vault.Nodes.{register_node, touch_node, mark_revoked, revoke_node}
use hermes_k2_monitor.Vault.Nodes.Revoked.{
  IsRevoked, register_node-IsRevoked, touch_node-IsRevoked, mark_revoked-IsRevoked,
  revoke_node-IsRevoked, register_node-revoked, mark_revoked-sets,
}
use hermes_k2_monitor.Vault.Tasks.{upsert_task}
use hermes_k2_monitor.Vault.Tasks.Files.{nodes-upsert_task}
use hermes_k2_monitor.Vault.Events.{append_event}
use hermes_k2_monitor.Vault.Events.Registry.{append_event-IsRevoked}

-- A call of a method, at any arguments, whether it returns or raises.
pub data Step (digest repr : Json → String) : Vault → Vault → Type 0 where
  registered :
      (now id role : String) (ttl : ℕ) (v : Vault)
      → Step digest repr v (register_node now id role ttl v).1
  touched : (now id : String) (v : Vault) → Step digest repr v (touch_node now id v)
  marked : (now id : String) (v : Vault) → Step digest repr v (mark_revoked now id v)
  revoked_by : (now id : String) (v : Vault) → Step digest repr v (revoke_node now id v).1
  upserted :
      (now uuid : String) (task : Fields) (v : Vault)
      → Step digest repr v (upsert_task repr now uuid task v).1
  appended :
      (uuid now node op : String) (payload : Fields) (sig : String) (v : Vault)
      → Step digest repr v (append_event digest repr uuid now node op payload sig v).1

pub data Reach (digest repr : Json → String) (u : Vault) : Vault → Type 0 where
  here : Reach digest repr u u
  next : {v w : Vault} → Reach digest repr u v → Step digest repr v w → Reach digest repr u w

module _ (digest repr : Json → String) (gone_id : String) where
  Step-IsRevoked :
      {v w : Vault}
      → Step digest repr v w
      → IsRevoked gone_id v.state.nodes
      → IsRevoked gone_id w.state.nodes
  Step-IsRevoked (registered now id role ttl v) r =
      register_node-IsRevoked gone_id id now v r role ttl
  Step-IsRevoked (touched now id v) r = touch_node-IsRevoked gone_id id now v r
  Step-IsRevoked (marked now id v) r = mark_revoked-IsRevoked gone_id id now v r
  Step-IsRevoked (revoked_by now id v) r = revoke_node-IsRevoked gone_id id now v r
  Step-IsRevoked (upserted now uuid task v) r =
      subst⁻¹ (IsRevoked gone_id) (nodes-upsert_task repr now uuid task v) r
  Step-IsRevoked (appended uuid now node op payload sig v) r =
      append_event-IsRevoked digest repr gone_id uuid now node op payload sig v r

  pub Reach-IsRevoked :
      {u v : Vault}
      → Reach digest repr u v
      → IsRevoked gone_id u.state.nodes
      → IsRevoked gone_id v.state.nodes
  Reach-IsRevoked here r = r
  Reach-IsRevoked (next p s) r = Step-IsRevoked s (Reach-IsRevoked p r)

-- After `mark_revoked` a node stays revoked, whatever calls of these methods follow on any nodes,
-- and every later attempt to register it raises and changes nothing.
pub mark_revoked-stays :
    (digest repr : Json → String) (id then : String) (v w : Vault)
    → Reach digest repr (mark_revoked then id v) w
    → (now role : String) (ttl : ℕ)
    → IsRevoked id w.state.nodes × (register_node now id role ttl w ≡ (raised node_is_revoked, w))
mark_revoked-stays digest repr id then v w p now role ttl =
    let r = Reach-IsRevoked digest repr id p (mark_revoked-sets then id v) in
    (r, register_node-revoked now id role ttl w r)
