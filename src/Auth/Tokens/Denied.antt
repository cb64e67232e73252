-- ===== src/Auth/Tokens/Denied.antt =====
-- collab/auth.py, `verify_token`: whom it accepts, and that a revoked node is not among them.
use hermes_k2_monitor.Prelude.{
  ℕ, ◌≡◌, ◌≢◌, String, true, false, not, ◌&&◌, List, [], ◌∷◌, Option, none, some, arith, str_eq,
  lookup, Bool-cases, Option-cases, inl, inr,
}
use hermes_k2_monitor.Json.{Json}
use hermes_k2_monitor.Monad.{ok}
use hermes_k2_monitor.Vault.{Node, Vault}
use hermes_k2_monitor.Vault.Nodes.{revoke_node as revoke_in_vault}
use hermes_k2_monitor.Vault.Nodes.Revoked.{IsRevoked, revoke_node-sets}
use hermes_k2_monitor.Vault.Revocation.{Reach, Reach-IsRevoked}
use hermes_k2_monitor.Auth.State.{Crypto, Token, Auth}
use hermes_k2_monitor.Auth.Tokens.{
  is_presented, is_active_node, is_certified, mem_text, search_token, verify_token, revoke_node,
}

-- What an accepted token says of its node: it is active in the vault, on no list of revoked nodes,
-- and its certificate is valid.
pub record IsAdmitted (k : Crypto) (now : ℕ) (id : String) (a : Auth) : Type 0 where
  pub active : is_active_node (lookup id a.vault.state.nodes) ≡ true
  pub gone : List String
  pub readable : a.revoked_nodes ≡ some gone
  pub not_gone : mem_text id gone ≡ false
  pub certified : is_certified k now id a ≡ true

module _ (k : Crypto) (now : ℕ) (id : String) (a : Auth) where
  search_token-IsAdmitted :
      (h : String) (ts : List Token)
      → (search_token k now h ts a).0 ≡ ok (some id)
      → IsAdmitted k now id a
  unfolding search_token
  search_token-IsAdmitted h [] e = cc
  search_token-IsAdmitted h (t ∷ ts) e =
      elim (Bool-cases
        (is_presented now h t && is_active_node (lookup t.node_id a.vault.state.nodes))) [
          | inr n ↦ search_token-IsAdmitted h ts (ground arith)
          | inl y ↦ elim (Option-cases a.revoked_nodes) [
            | inl f ↦ absurd (ground arith)
            | inr (gone, f) ↦
                elim (Bool-cases
                  (not (mem_text t.node_id gone) && is_certified k now t.node_id a)) [
                    | inr n ↦ search_token-IsAdmitted h ts (ground arith)
                    | inl z ↦
                        let same : t.node_id ≡ id = ground arith in
                        record {
                          active = rw (← same) (ground arith);
                          gone = gone;
                          readable = f;
                          not_gone = rw (← same) (ground arith);
                          certified = rw (← same) (ground arith);
                        }
                  ]
          ]
        ]

  -- Whomever `verify_token` accepts is active, on no list of revoked nodes, and has a valid certificate.
  pub verify_token-IsAdmitted :
      (token : Option String)
      → (verify_token k now token a).0 ≡ ok (some id)
      → IsAdmitted k now id a
  unfolding verify_token
  verify_token-IsAdmitted none e = cc
  verify_token-IsAdmitted (some s) e = elim (Bool-cases (str_eq s "")) [
    | inl y ↦ absurd (ground arith)
    | inr n ↦ elim (Option-cases a.tokens) [
      | inl f ↦ absurd (ground arith)
      | inr (ts, f) ↦ search_token-IsAdmitted (k.hash s) ts (ground arith)
    ]
  ]

IsRevoked-is_active_node :
    (id : String) (v : Vault)
    → IsRevoked id v.state.nodes
    → is_active_node (lookup id v.state.nodes) ≡ false
IsRevoked-is_active_node id v gone = ground arith

vault-revoke_node :
    (k : Crypto) (now : ℕ) (id : String) (a : Auth)
    → (revoke_node k now id a).1.vault ≡ (revoke_in_vault (k.iso now) id a.vault).1
unfolding revoke_node
vault-revoke_node k now id a = ground arith

-- A call of `revoke_node` for a registered node, whether it returns or raises, leaves it revoked in the
-- vault.
pub revoke_node-IsRevoked :
    (k : Crypto) (now : ℕ) (id : String) (n : Node) (a : Auth)
    → lookup id a.vault.state.nodes ≡ some n
    → IsRevoked id (revoke_node k now id a).1.vault.state.nodes
revoke_node-IsRevoked k now id n a old =
    rw (vault-revoke_node k now id a) (revoke_node-sets (k.iso now) id n a.vault old)

-- After `revoke_node` has been called for a registered node, even if the call raised because a store
-- could not be read, no token is accepted for that node, whatever the vault has gone through since by
-- its methods on nodes, tasks and events, and whatever the stores and certificates are by then.
pub verify_token-revoke_node :
    (digest repr : Json → String) (k : Crypto) (now later : ℕ) (id : String) (n : Node)
    (token : Option String) (a b : Auth)
    → lookup id a.vault.state.nodes ≡ some n
    → Reach digest repr (revoke_node k now id a).1.vault b.vault
    → (verify_token k later token b).0 ≢ ok (some id)
verify_token-revoke_node digest repr k now later id n token a b old r e =
    let admitted = verify_token-IsAdmitted k later id b token e in
    let gone = Reach-IsRevoked digest repr id r (revoke_node-IsRevoked k now id n a old) in
    cc (admitted.active, IsRevoked-is_active_node id b.vault gone)
