-- ===== src/Vault/Nodes.antt =====
-- collab/vault.py: the node registry.
pub mod Revoked
use hermes_k2_monitor.Prelude.{
  ℕ, ◌≡◌, ◌≢◌, refl, String, Bool, true, false, Option, none, some, arith, str_eq, eq_iff,
  if◌then◌else◌, Dict, lookup, insert, lookup-insert, dict_laws,
}
use hermes_k2_monitor.Monad.{Result, ok, raised, Exec}
use hermes_k2_monitor.Vault.Defs.{
  VaultError, node_is_revoked, NodeStatus, active, revoked, Node, State, Vault, save, set_state,
}

abbrev put_node : String → Node → Vault → Vault
put_node id n v = save (set_state (record (v.state) { nodes = insert id n v.state.nodes }) v)

-- the "joined_at" that `register_node` keeps
abbrev pub joined : String → Option Node → Option String
joined now none = some now
joined now (some n) = n.joined_at

abbrev pub joined_node : String → String → ℕ → Option Node → Node
joined_node now role ttl old = record {
  status = active;
  joined_at = joined now old;
  last_seen = some now;
  role = role;
  ttl = ttl;
}

-- `register_node`
unfoldable pub register_node : String → String → String → ℕ → Exec VaultError Vault Unit
register_node now id role ttl v = elim (lookup id v.state.nodes) [
  | none ↦ (ok tt, put_node id (joined_node now role ttl none) v)
  | some n ↦ elim n.status [
    | revoked ↦ (raised node_is_revoked, v)
    | active ↦ (ok tt, put_node id (joined_node now role ttl (some n)) v)
  ]
]

-- `touch_node`
unfoldable pub touch_node : String → String → Vault → Vault
touch_node now id v = elim (lookup id v.state.nodes) [
  | none ↦ v
  | some n ↦ put_node id (record n { last_seen = some now }) v
]

-- `node.get("last_seen") or now`
abbrev pub seen_or : String → Option String → Option String
seen_or now none = some now
seen_or now (some t) = if str_eq t "" then some now else some t

-- `mark_revoked`
unfoldable pub mark_revoked : String → String → Vault → Vault
mark_revoked now id v = elim (lookup id v.state.nodes) [
  | none ↦
      put_node id
        (record {
          status = revoked;
          joined_at = none;
          last_seen = some now;
          role = "collab";
          ttl = 0;
        })
        v
  | some n ↦ put_node id (record n { status = revoked; last_seen = seen_or now n.last_seen }) v
]

-- `revoke_node`
unfoldable pub revoke_node : String → String → Vault → Bool × Vault
revoke_node now id v = elim (lookup id v.state.nodes) [
  | none ↦ (false, v)
  | some n ↦ (true, put_node id (record n { status = revoked; last_seen = some now }) v)
]
