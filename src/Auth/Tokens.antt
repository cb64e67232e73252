-- ===== src/Auth/Tokens.antt =====
-- collab/auth.py: `verify_owner`, `verify_token`, `revoke_node`, and what `__init__` restores.
pub mod Denied
pub mod Accepted
use hermes_k2_monitor.Prelude.{
  ℕ, String, Bool, true, false, not, ◌&&◌, ◌||◌, List, [], ◌∷◌, ◌++◌, Option, none, some, ltb, leb,
  ◌==◌, str_eq, if◌then◌else◌, any, map, lookup,
}
use hermes_k2_monitor.Text.{DigestError, compare_digest}
use hermes_k2_monitor.Monad.{Result, ok, raised, Exec}
use hermes_k2_monitor.Identity.{Identity, verify as verify_cert_of, revoke as revoke_cert}
use hermes_k2_monitor.Vault.{Node, Vault, is_active}
use hermes_k2_monitor.Vault.Nodes.{touch_node, mark_revoked, revoke_node as revoke_in_vault}
use hermes_k2_monitor.Auth.State.{Crypto, AuthError, store_unreadable, Token, Auth, with_store}

-- `verify_owner`
unfoldable pub verify_owner : String → Option String → Result DigestError Bool
verify_owner owner none = ok false
verify_owner owner (some provided) =
    if str_eq provided "" then ok false else compare_digest provided owner

-- `node.get("status") == "active"`, of the node or of {}
abbrev pub is_active_node : Option Node → Bool
is_active_node none = false
is_active_node (some n) = is_active n.status

abbrev pub mem_text : String → List String → Bool
mem_text s ss = any (λ t. str_eq t s) ss

-- The tests of the loop in `verify_token` on an entry, up to its node.
abbrev pub is_presented : ℕ → String → Token → Bool
is_presented now h t = ltb now t.expires_at && not t.revoked && str_eq t.token_hash h

abbrev insert_sorted : String → List String → List String
insert_sorted id gone = if mem_text id gone then gone else id ∷ gone

abbrev pub revoke_tokens : String → List Token → List Token
revoke_tokens id ts = map (λ t. if str_eq t.node_id id then record t { revoked = true } else t) ts

module _ (k : Crypto) where
  -- the tests on its node, `_is_revoked` apart
  abbrev pub is_certified : ℕ → String → Auth → Bool
  is_certified now id a = verify_cert_of k.material k.check k.is_key now id none a.identity

  -- The loop in `verify_token`.
  unfoldable pub search_token : ℕ → String → List Token → Exec AuthError Auth (Option String)
  search_token now h [] a = (ok none, a)
  search_token now h (t ∷ ts) a =
      let rest = search_token now h ts a in
      if is_presented now h t && is_active_node (lookup t.node_id a.vault.state.nodes)
      then elim a.revoked_nodes [
        | none ↦ (raised store_unreadable, a)
        | some gone ↦
            if not (mem_text t.node_id gone) && is_certified now t.node_id a
            then (
              ok (some t.node_id),
              record a { vault = touch_node (k.iso now) t.node_id a.vault },
            )
            else rest
      ]
      else rest

  -- `verify_token`
  unfoldable pub verify_token : ℕ → Option String → Exec AuthError Auth (Option String)
  unfolding search_token
  verify_token now none a = (ok none, a)
  verify_token now (some token) a =
      if str_eq token ""
      then (ok none, a)
      else elim a.tokens [ none ↦ (ok none, a) | some ts ↦ search_token now (k.hash token) ts a ]

  -- The last part of `revoke_node`: the tokens of the node.
  abbrev end_tokens : String → Exec AuthError Auth Bool
  end_tokens id a =
      with_store a.tokens (λ ts b. (ok true, record b { tokens = some (revoke_tokens id ts) })) a

  -- `revoke_node`; the store of revoked nodes is a set, which the code writes in order
  unfoldable pub revoke_node : ℕ → String → Exec AuthError Auth Bool
  revoke_node now id a =
      let (changed, v) = revoke_in_vault (k.iso now) id a.vault in
      if not changed
      then (ok false, record a { vault = v })
      else with_store a.revoked_nodes
          (λ gone b. end_tokens id (record b { revoked_nodes = some (insert_sorted id gone) }))
          (record a { vault = v; identity = (revoke_cert id a.identity).1 })

  -- `__init__`: the vault is told again which nodes are revoked
  unfoldable pub restore_nodes : ℕ → List String → Vault → Vault
  restore_nodes now [] v = v
  restore_nodes now (id ∷ gone) v = restore_nodes now gone (mark_revoked (k.iso now) id v)
