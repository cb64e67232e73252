-- ===== src/Identity/Certificates.antt =====
-- collab/identity.py: issued and revoked certificates under `verify`.
use hermes_k2_monitor.Prelude.{
  ℕ, ◌+◌, ◌≡◌, String, Bool, true, false, none, arith, ltb, str_eq, eq_iff, eq_refl, if◌then◌else◌,
  lookup, lookup-insert, Option-cases, inl, inr,
}
use hermes_k2_monitor.Monad.{ok}
use hermes_k2_monitor.Identity.{Cert, Identity, revoke, issue, new_cert, verify_cert, verify}

-- `revoke` ends the certificate of its node, if there is one, and leaves every other as it was.
pub verify-revoke :
    (material : String → String → ℕ → ℕ → String) (check : String → String → Bool)
    (is_key : String → Bool) (now : ℕ) (id other : String) (i : Identity)
    → verify material check is_key now other none (revoke id i).1
      ≡ (if str_eq id other then false else verify material check is_key now other none i)
unfolding verify revoke verify_cert
verify-revoke material check is_key now id other i = elim (Option-cases (lookup id i.nodes)) [
  | inl e ↦ ground (arith, eq_iff id other)
  | inr (c, e) ↦ ground (arith, lookup-insert id other (record c { revoked = true }) i.nodes)
]

-- A certificate that `issue` has returned is valid on file until its validity is over, and no longer,
-- if the CA's signatures check.
pub verify-issue :
    (material : String → String → ℕ → ℕ → String) (sign : String → String)
    (check : String → String → Bool) (is_key : String → Bool) (now later : ℕ) (id key : String)
    (c : Cert) (i : Identity)
    → ((m : String) → check m (sign m) ≡ true)
    → (issue material sign is_key now id key i).0 ≡ ok c
    → verify material check is_key later id none (issue material sign is_key now id key i).1
      ≡ ltb later (now + i.validity)
unfolding verify issue verify_cert
verify-issue material sign check is_key now later id key c i checks e = ground (
  arith,
  lookup-insert id id (new_cert material sign is_key now id key i) i.nodes,
  eq_refl id,
  checks (material id key now (now + i.validity)),
)
