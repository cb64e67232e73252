-- ===== src/Server/Mesh/Calls.antt =====
-- server.py: a call of the vault in a route that leaves both files as they were.
use hermes_k2_monitor.Prelude.{◌≡◌, refl, ap, arith, String}
use mathlib.Core.Path.{subst⁻¹}
use hermes_k2_monitor.Monad.{Result, ok, raised, Exec, continue, continue-cases}
use hermes_k2_monitor.Json.{Json}
use hermes_k2_monitor.Vault.{VaultError, Vault}
use hermes_k2_monitor.Vault.Events.{ensure_audit_clean}
use hermes_k2_monitor.Server.Mesh.{Mesh, Route, Reply, lift, vault_call}
use hermes_k2_monitor.Server.Mesh.Keeps.{Kept, Kept-trans}

module _ {M A : Type 0} (answer : VaultError → Reply) where
  lift-state : (o : Result VaultError A) (w : Mesh M) → (lift answer o w).1 ≡ w
  lift-state (ok a) w = refl
  lift-state (raised x) w = refl

  lift-ok : (o : Result VaultError A) (w : Mesh M) (a : A) → (lift answer o w).0 ≡ ok a → o ≡ ok a
  lift-ok (ok b) w a e = cc
  lift-ok (raised x) w a e = absurd cc

  vault-vault_call :
      (call : Exec VaultError Vault A) (w : Mesh M)
      → (vault_call answer call w).1.auth.vault ≡ (call w.auth.vault).1
  unfolding vault_call
  vault-vault_call call w = ap (λ x. x.auth.vault) (lift-state (call w.auth.vault).0 _)

  vault_call-ok :
      (call : Exec VaultError Vault A) (w : Mesh M) (a : A)
      → (vault_call answer call w).0 ≡ ok a
      → (call w.auth.vault).0 ≡ ok a
  unfolding vault_call
  vault_call-ok call w a e = lift-ok (call w.auth.vault).0 _ a e

pub ensure_audit_clean-Kept :
    (digest : Json → String) (v : Vault) → Kept v (ensure_audit_clean digest v).1
unfolding ensure_audit_clean
ensure_audit_clean-Kept digest v = record {
  ledger = ground arith;
  audit = ground arith;
  files = ground arith;
}

-- What holds of the refusal, and of the rest after the call, holds of the two in a row.
pub past_vault_call :
    {M A : Type 0} (s : Mesh M) (P : Result Reply Reply × Mesh M → Type 0)
    → ((e : Reply) (w : Mesh M) → Kept s.auth.vault w.auth.vault → P (raised e, w))
    → (answer : VaultError → Reply) (call : Exec VaultError Vault A) (rest : A → Route M Reply)
      (w : Mesh M)
    → ((v : Vault) → Kept v (call v).1)
    → Kept s.auth.vault w.auth.vault
    → ((a : A) (w' : Mesh M)
        → (call w.auth.vault).0 ≡ ok a
        → Kept s.auth.vault w'.auth.vault
        → P (rest a w'))
    → P (continue rest (vault_call answer call w))
past_vault_call s P stop answer call rest w keeps k go =
    let o = vault_call answer call w in
    let k' : Kept s.auth.vault o.1.auth.vault =
      Kept-trans k
        (subst⁻¹ (Kept w.auth.vault) (vault-vault_call answer call w) (keeps w.auth.vault)) in
    continue-cases P rest o (λ e _. stop e o.1 k')
      (λ a good. go a o.1 (vault_call-ok answer call w a good) k')
