-- ===== src/AuditScan/Flagged.antt =====
-- scripts/audit_identity_scan.py: a node that has been revoked is an anomaly.
use hermes_k2_monitor.Prelude.{
  ℕ, ◌≡◌, ◌≢◌, refl, ap, ◌∙◌, String, true, false, [], ◌∷◌, none, some, arith, eq_iff, eq_refl,
  str_eq, Dict, lookup, Bool-cases, inl, inr,
}
use hermes_k2_monitor.Monad.{ok}
use hermes_k2_monitor.Json.{Json}
use hermes_k2_monitor.Identity.{verify as verify_cert_of, revoke as revoke_cert}
use hermes_k2_monitor.Identity.Certificates.{verify-revoke}
use hermes_k2_monitor.Vault.{Node}
use hermes_k2_monitor.Vault.Nodes.{revoke_node as revoke_in_vault}
use hermes_k2_monitor.Vault.Nodes.Revoked.{IsRevoked}
use hermes_k2_monitor.Auth.{Crypto, Auth}
use hermes_k2_monitor.Auth.Tokens.{is_certified, revoke_node}
use hermes_k2_monitor.Auth.Tokens.Denied.{revoke_node-IsRevoked}
use hermes_k2_monitor.Vault.Revocation.{Reach, Reach-IsRevoked}
use hermes_k2_monitor.AuditScan.{Report, scan}
use hermes_k2_monitor.AuditScan.Sound.{Each, and_each, IsSettled, scan-ok}

lookup-IsSettled :
    (k : Crypto) (now : ℕ) (a : Auth) (id : String) (d : Dict Node)
    → Each (IsSettled k now a) d
    → lookup id d ≢ none
    → is_certified k now id a ≡ true
unfolding lookup
lookup-IsSettled k now a id [] e old = absurd (old refl)
lookup-IsSettled k now a id ((j, n) ∷ d) (and_each p ps) old = elim (Bool-cases (str_eq j id)) [
  | inl y ↦ let same : j ≡ id = (eq_iff j id).0 y in rw (← same) p.certified
  | inr y ↦ lookup-IsSettled k now a id d ps (λ f. old (ground (arith, f)))
]

module _ (k : Crypto) (now : ℕ) (id : String) (n : Node) (a : Auth)
    (old : lookup id a.vault.state.nodes ≡ some n) where
  identity-revoke_node : (revoke_node k now id a).1.identity ≡ (revoke_cert id a.identity).1
  unfolding revoke_node revoke_in_vault
  identity-revoke_node = ground (arith, old)

  -- Whatever the vault goes through, as long as the certificates are what the revocation has left.
  module _ (digest repr : Json → String) (b : Auth)
      (kept : b.identity ≡ (revoke_node k now id a).1.identity)
      (reached : Reach digest repr (revoke_node k now id a).1.vault b.vault) where
    revoke_node-registered : lookup id b.vault.state.nodes ≢ none
    revoke_node-registered f =
        let gone : IsRevoked id b.vault.state.nodes =
          Reach-IsRevoked digest repr id reached (revoke_node-IsRevoked k now id n a old) in
        ground (arith, f, gone)

    revoke_node-uncertified : (later : ℕ) → is_certified k later id b ≡ false
    revoke_node-uncertified later =
        ap (λ i. verify_cert_of k.material k.check k.is_key later id none i)
          (kept ∙ identity-revoke_node)
        ∙ verify-revoke k.material k.check k.is_key later id id a.identity
        ∙ ground (arith, eq_refl id)

-- After a registered node has been revoked, no report of the scan says ok, as long as the certificates
-- are what the revocation has left, whatever the vault goes through by its methods on nodes, tasks and
-- events, and however clean the files are: the revoked certificate is itself counted as an anomaly.
pub scan-revoke_node :
    (digest repr : Json → String) (k : Crypto) (now later : ℕ) (id : String) (n : Node) (a b : Auth)
    (r : Report)
    → lookup id a.vault.state.nodes ≡ some n
    → b.identity ≡ (revoke_node k now id a).1.identity
    → Reach digest repr (revoke_node k now id a).1.vault b.vault
    → scan digest k later b ≡ ok r
    → r.is_ok ≡ false
scan-revoke_node digest repr k now later id n a b r old kept reached e = elim (Bool-cases r.is_ok) [
  | inr bad ↦ bad
  | inl good ↦
      let (_, _, settled) = scan-ok digest k later b r e good in
      let valid : is_certified k later id b ≡ true =
        lookup-IsSettled k later b id b.vault.state.nodes settled
          (revoke_node-registered k now id n a old digest repr b kept reached) in
      cc (valid, revoke_node-uncertified k now id n a old digest repr b kept reached later)
]
