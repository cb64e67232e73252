-- ===== src/Server/Mesh/Guards.antt =====
-- server.py: what a request has shown once it has passed the guards that the routes of the nodes share.
use hermes_k2_monitor.Prelude.{◌≡◌, ◌≢◌, refl, ap, ◌∙◌, String, Option, some}
use mathlib.Core.Path.{subst⁻¹}
use hermes_k2_monitor.Monad.{Result, ok, raised, ◌>>=◌, continue, continue-cases}
use hermes_k2_monitor.Json.{Json, obj, Fields}
use hermes_k2_monitor.Trust.{verified, verify}
use hermes_k2_monitor.Trust.Signer.{verify-signer}
use hermes_k2_monitor.Auth.Tokens.Denied.{IsAdmitted}
use hermes_k2_monitor.Server.Gates.{Request}
use hermes_k2_monitor.Server.Mesh.{
  Outside, Mesh, Times, Route, Reply, node_authorized, limit_peer, json_body, verify_body,
}
use hermes_k2_monitor.Server.Mesh.Keeps.{
  Kept, node_authorized-Kept, trust-node_authorized, node_authorized-IsAdmitted, limit_peer-keeps,
  json_body-keeps, json_body-eq, auth-verify_body, verify_body-eq,
}

-- A request of a node that has an accepted token, is active and certified, and whose body verifies for
-- it; the files are what they were.
pub record Passed {M : Type 0} (out : Outside M) (t : Times) (body : Option Json) (s : Mesh M)
    (node : String) (fields : Fields) (w : Mesh M) : Type 0 where
  pub admitted : IsAdmitted out.crypto t.caller node s.auth
  pub is_body : body ≡ some (obj fields)
  pub valid :
      (verify out.float_of out.text_of out.canonical out.hmac out.internal_ip t.envelope t.nonces
        (some node)
        (obj fields)
        s.trust).0
      ≡ ok (verified, some node)
  pub kept : Kept s.auth.vault w.auth.vault

module _ {M : Type 0} (out : Outside M) (t : Times) (body : Option Json) (s : Mesh M)
    (P : Result Reply Reply × Mesh M → Type 0)
    (stop : (e : Reply) (w : Mesh M) → Kept s.auth.vault w.auth.vault → P (raised e, w))
    (rest : String → Fields → String → Route M Reply)
    (go : (node : String) (fields : Fields) (w : Mesh M)
      → Passed out t body s node fields w
      → P (rest node fields node w)) where
  -- `verify`
  past_verify_body :
      (node : String) (fields : Fields) (w : Mesh M)
      → IsAdmitted out.crypto t.caller node s.auth
      → node ≢ ""
      → body ≡ some (obj fields)
      → Kept s.auth.vault w.auth.vault
      → w.trust ≡ s.trust
      → P (continue (rest node fields) (verify_body out t node fields w))
  past_verify_body node fields w admitted ne is_body k trusted =
      let o = verify_body out t node fields w in
      let k' : Kept s.auth.vault o.1.auth.vault =
        subst⁻¹ (λ a. Kept s.auth.vault a.vault) (auth-verify_body out t node fields w) k in
      continue-cases P (rest node fields) o (λ e _. stop e o.1 k')
        (λ signed good.
          let checked = verify_body-eq out t node fields w signed good in
          let own : signed ≡ node =
            verify-signer out.float_of out.text_of out.canonical out.hmac out.internal_ip t.envelope
              t.nonces node signed fields verified w.trust ne checked in
          subst⁻¹ (λ x. P (rest node fields x o.1)) own
            (go node fields o.1 (record {
              admitted = admitted;
              is_body = is_body;
              valid = rw (← trusted, checked, own) refl;
              kept = k';
            })))

  -- `_rate_limit` and `_json_body`
  past_limit_peer :
      (scope node : String) (w : Mesh M)
      → IsAdmitted out.crypto t.caller node s.auth
      → node ≢ ""
      → Kept s.auth.vault w.auth.vault
      → w.trust ≡ s.trust
      → P (
          continue
            (λ _. json_body body >>= λ b. verify_body out t node b >>= rest node b)
            (limit_peer out t scope node w))
  past_limit_peer scope node w admitted ne k trusted =
      let o = limit_peer out t scope node w in
      let (a, u, _, _, _) = limit_peer-keeps out t scope node w in
      let k₁ : Kept s.auth.vault o.1.auth.vault = subst⁻¹ (λ x. Kept s.auth.vault x.vault) a k in
      continue-cases P _ o (λ e _. stop e o.1 k₁)
        (λ _ _.
          let same = json_body-keeps body o.1 in
          let q = json_body body o.1 in
          let k₂ : Kept s.auth.vault q.1.auth.vault =
            subst⁻¹ (λ x. Kept s.auth.vault x.auth.vault) same k₁ in
          continue-cases P _ q (λ e _. stop e q.1 k₂)
            (λ b read.
              past_verify_body node b q.1 admitted ne (json_body-eq body o.1 b read) k₂
                (ap (λ x. x.trust) same ∙ u ∙ trusted)))

  -- What holds of every refusal of a guard, and of the rest for a request that has passed, holds of the
  -- route.
  pub past_guards :
      (scope : String) (r : Request)
      → P (
          continue
            (λ node. limit_peer out t scope node >>= λ _.
              json_body body >>= λ b. verify_body out t node b >>= rest node b)
            (node_authorized out t r s))
  past_guards scope r =
      let o = node_authorized out t r s in
      let k = node_authorized-Kept out t r s in
      continue-cases P _ o (λ e _. stop e o.1 k)
        (λ node passed.
          let (admitted, ne) = node_authorized-IsAdmitted out t r s node passed in
          past_limit_peer scope node o.1 admitted ne k (trust-node_authorized out t r s))
