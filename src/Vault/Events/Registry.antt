-- ===== src/Vault/Events/Registry.antt =====
-- collab/vault.py, `append_event`: what an event can do to the node registry.
use hermes_k2_monitor.Prelude.{
  ◌≡◌, refl, String, Option, some, arith, str_eq, Dict, Bool-cases, inl, inr,
}
use mathlib.Core.Path.{subst⁻¹}
use hermes_k2_monitor.Monad.{Result, ok, raised, continue}
use hermes_k2_monitor.Json.{Json, str, Fields, get_field}
use hermes_k2_monitor.Vault.Defs.{Node, Vault, VaultError}
use hermes_k2_monitor.Vault.Nodes.Revoked.{IsRevoked, register_node-IsRevoked}
use hermes_k2_monitor.Vault.Chain.{verify_audit_chain}
use hermes_k2_monitor.Vault.Tasks.Files.{nodes-upsert_task}
use hermes_k2_monitor.Vault.Events.{
  entry_of, task_of, ensure_audit_clean, join_as, role_of, apply_event, write_lines, append_event,
}
use hermes_k2_monitor.Vault.Events.Clean.{at_end}

module _ (repr : Json → String) (gone_id now : String) where
  join_as-IsRevoked :
      (role id : Option Json) (v : Vault)
      → IsRevoked gone_id v.state.nodes
      → IsRevoked gone_id (join_as repr now role id v).1.state.nodes
  unfolding join_as
  join_as-IsRevoked role (some (str id)) v gone = elim (Bool-cases (str_eq id "")) [
    | inl e ↦ rw (join_as, e) gone
    | inr e ↦ rw (join_as, e) (register_node-IsRevoked gone_id id now v gone (role_of repr role) 0)
  ]
  join_as-IsRevoked role _ v gone = gone

  apply_event-IsRevoked :
      (uuid node op : String) (payload : Fields) (v : Vault)
      → IsRevoked gone_id v.state.nodes
      → IsRevoked gone_id (apply_event repr uuid now node op payload v).1.state.nodes
  unfolding apply_event
  apply_event-IsRevoked uuid node op payload v gone = ground (
    arith,
    nodes-upsert_task repr now uuid (task_of payload) v,
    join_as-IsRevoked (get_field "role" payload) (get_field "node_id" payload) v gone,
  )

nodes-at_end :
    (now : String) (entry : Fields) (o : Result VaultError Unit × Vault)
    → (continue (at_end now entry) o).1.state.nodes ≡ o.1.state.nodes
nodes-at_end now entry (ok _, w) = refl
nodes-at_end now entry (raised _, w) = refl

pub append_event-IsRevoked :
    (digest repr : Json → String) (gone_id uuid now node op : String) (payload : Fields)
    (sig : String) (v : Vault)
    → IsRevoked gone_id v.state.nodes
    → IsRevoked gone_id (append_event digest repr uuid now node op payload sig v).1.state.nodes
unfolding append_event ensure_audit_clean
append_event-IsRevoked digest repr gone_id uuid now node op payload sig v gone =
    elim (Bool-cases (verify_audit_chain digest v)) [
      | inr bad ↦ rw (append_event, ensure_audit_clean, bad) gone
      | inl clean ↦
          let entry = entry_of uuid now node op payload sig in
          let w = write_lines digest uuid now entry v in
          rw (append_event, ensure_audit_clean, clean)
            (subst⁻¹ (λ (d : Dict Node). IsRevoked gone_id d)
              (nodes-at_end now entry (apply_event repr uuid now node op payload w))
              (apply_event-IsRevoked repr gone_id now uuid node op payload w
                (unfold write_lines in gone)))
    ]
