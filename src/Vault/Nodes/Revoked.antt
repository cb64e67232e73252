-- ===== src/Vault/Nodes/Revoked.antt =====
-- collab/vault.py: revocation in the node registry, method by method.
use hermes_k2_monitor.Prelude.{
  ℕ, ◌≡◌, refl, ap, String, Option, none, some, arith, str_eq, eq_iff, eq_refl, Dict, lookup,
  insert, lookup-insert, Option-cases, Bool-cases, inl, inr, ◌⊎◌,
}
use hermes_k2_monitor.Monad.{raised}
use hermes_k2_monitor.Vault.Defs.{NodeStatus, active, revoked, node_is_revoked, Node, Vault}
use hermes_k2_monitor.Vault.Nodes.{
  joined_node, register_node, touch_node, mark_revoked, revoke_node,
}

abbrev pub status_of : Option Node → Option NodeStatus
status_of none = none
status_of (some n) = some n.status

-- The registry has the node, as revoked.
abbrev pub IsRevoked : String → Dict Node → Type 0
IsRevoked id nodes = status_of (lookup id nodes) ≡ some revoked

Status-cases : (s : NodeStatus) → (s ≡ active) ⊎ (s ≡ revoked)
Status-cases active = inl refl
Status-cases revoked = inr refl

-- The registry after an entry is written: revoked stays so if a revoked entry is written revoked.
insert-IsRevoked :
    (id j : String) (n : Node) (nodes : Dict Node)
    → (status_of (lookup j nodes) ≡ some revoked → n.status ≡ revoked)
    → IsRevoked id nodes
    → IsRevoked id (insert j n nodes)
insert-IsRevoked id j n nodes keeps gone = elim (Bool-cases (str_eq j id)) [
  | inl e ↦
      let same : j ≡ id = (eq_iff j id).0 e in
      rw (lookup-insert, e) (ap some (keeps (rw same gone)))
  | inr e ↦ rw (lookup-insert, e) gone
]

module _ (id j now : String) (v : Vault) (gone : IsRevoked id v.state.nodes) where
  pub register_node-IsRevoked :
      (role : String) (ttl : ℕ) → IsRevoked id (register_node now j role ttl v).1.state.nodes
  unfolding register_node
  register_node-IsRevoked role ttl = elim (Option-cases (lookup j v.state.nodes)) [
    | inl new ↦
        rw (register_node, new)
          (insert-IsRevoked id j (joined_node now role ttl none) v.state.nodes (λ p. ground arith)
            gone)
    | inr (n, old) ↦ elim (Status-cases n.status) [
      | inl a ↦
          rw (register_node, old, a)
            (insert-IsRevoked id j (joined_node now role ttl (some n)) v.state.nodes
              (λ p. ground arith) gone)
      | inr r ↦ rw (register_node, old, r) gone
    ]
  ]

  pub touch_node-IsRevoked : IsRevoked id (touch_node now j v).state.nodes
  unfolding touch_node
  touch_node-IsRevoked = elim (Option-cases (lookup j v.state.nodes)) [
    | inl new ↦ rw (touch_node, new) gone
    | inr (n, old) ↦
        rw (touch_node, old)
          (insert-IsRevoked id j (record n { last_seen = some now }) v.state.nodes
            (λ p. ground arith) gone)
  ]

  pub mark_revoked-IsRevoked : IsRevoked id (mark_revoked now j v).state.nodes
  unfolding mark_revoked
  mark_revoked-IsRevoked = elim (Option-cases (lookup j v.state.nodes)) [
    | inl new ↦ rw (mark_revoked, new) (insert-IsRevoked id j _ v.state.nodes (λ p. refl) gone)
    | inr (n, old) ↦ rw (mark_revoked, old) (insert-IsRevoked id j _ v.state.nodes (λ p. refl) gone)
  ]

  pub revoke_node-IsRevoked : IsRevoked id (revoke_node now j v).1.state.nodes
  unfolding revoke_node
  revoke_node-IsRevoked = elim (Option-cases (lookup j v.state.nodes)) [
    | inl new ↦ rw (revoke_node, new) gone
    | inr (n, old) ↦ rw (revoke_node, old) (insert-IsRevoked id j _ v.state.nodes (λ p. refl) gone)
  ]

pub mark_revoked-sets :
    (now id : String) (v : Vault) → IsRevoked id (mark_revoked now id v).state.nodes
unfolding mark_revoked
mark_revoked-sets now id v = elim (Option-cases (lookup id v.state.nodes)) [
  | inl new ↦ rw (mark_revoked, new, lookup-insert, eq_refl id) refl
  | inr (n, old) ↦ rw (mark_revoked, old, lookup-insert, eq_refl id) refl
]

pub register_node-revoked :
    (now id role : String) (ttl : ℕ) (v : Vault)
    → IsRevoked id v.state.nodes
    → register_node now id role ttl v ≡ (raised node_is_revoked, v)
unfolding register_node
register_node-revoked now id role ttl v gone = ground arith

pub revoke_node-sets :
    (now id : String) (n : Node) (v : Vault)
    → lookup id v.state.nodes ≡ some n
    → IsRevoked id (revoke_node now id v).1.state.nodes
unfolding revoke_node
revoke_node-sets now id n v old = rw (revoke_node, old, lookup-insert, eq_refl id) refl
