-- ===== src/Server/Mesh/Keeps.antt =====
-- server.py: the steps that guard a route leave the ledger and the audit file as they were.
use hermes_k2_monitor.Prelude.{
  ℕ, ◌≡◌, ◌≢◌, refl, ap, ◌∙◌, String, true, List, [], ◌∷◌, Option, none, some, arith, eq_iff,
  str_eq, Bool-cases, Option-cases, inl, inr,
}
use hermes_k2_monitor.Monad.{ok, Result-cases}
use hermes_k2_monitor.Json.{Json, obj, Fields}
use hermes_k2_monitor.Trust.{verified, verify}
use hermes_k2_monitor.RateLimit.{Limiter, Decision}
use hermes_k2_monitor.Vault.{Vault}
use hermes_k2_monitor.Vault.Nodes.{touch_node}
use hermes_k2_monitor.Auth.{Crypto, Token, Auth}
use hermes_k2_monitor.Auth.Tokens.{search_token, verify_token}
use hermes_k2_monitor.Auth.Tokens.Denied.{IsAdmitted, verify_token-IsAdmitted}
use hermes_k2_monitor.Server.Gates.{Request, bearer, owner_authorized}
use hermes_k2_monitor.Server.Mesh.{
  Outside, Mesh, Times, record_activity, json_body, node_authorized, require_owner, decide,
  limit_peer, judged, verify_body,
}

-- The ledger, the audit file and the files of the clients are the same.
pub record Kept (v w : Vault) : Type 0 where
  pub ledger : w.ledger ≡ v.ledger
  pub audit : w.audit ≡ v.audit
  pub files : w.files ≡ v.files

pub Kept-same : (v : Vault) → Kept v v
Kept-same v = record { ledger = refl; audit = refl; files = refl }

pub Kept-trans : {u v w : Vault} → Kept u v → Kept v w → Kept u w
Kept-trans p q = record {
  ledger = q.ledger ∙ p.ledger;
  audit = q.audit ∙ p.audit;
  files = q.files ∙ p.files;
}

touch_node-Kept : (now id : String) (v : Vault) → Kept v (touch_node now id v)
unfolding touch_node
touch_node-Kept now id v = record {
  ledger = ground arith;
  audit = ground arith;
  files = ground arith;
}

search_token-Kept :
    (k : Crypto) (now : ℕ) (h : String) (ts : List Token) (a : Auth)
    → Kept a.vault (search_token k now h ts a).1.vault
unfolding search_token
search_token-Kept k now h [] a = Kept-same a.vault
search_token-Kept k now h (t ∷ ts) a =
    let rest = search_token-Kept k now h ts a in
    let touched = touch_node-Kept (k.iso now) t.node_id a.vault in
    record {
      ledger = ground (arith, rest.ledger, touched.ledger);
      audit = ground (arith, rest.audit, touched.audit);
      files = ground (arith, rest.files, touched.files);
    }

verify_token-Kept :
    (k : Crypto) (now : ℕ) (token : Option String) (a : Auth)
    → Kept a.vault (verify_token k now token a).1.vault
unfolding verify_token
verify_token-Kept k now none a = Kept-same a.vault
verify_token-Kept k now (some token) a = elim (Option-cases a.tokens) [
  | inl e ↦ record {
    ledger = ground (arith, e);
    audit = ground (arith, e);
    files = ground (arith, e);
  }
  | inr (ts, e) ↦
      let found = search_token-Kept k now (k.hash token) ts a in
      record {
        ledger = ground (arith, e, found.ledger);
        audit = ground (arith, e, found.audit);
        files = ground (arith, e, found.files);
      }
]

module _ {M : Type 0} where
  pub json_body-keeps : (body : Option Json) (s : Mesh M) → (json_body body s).1 ≡ s
  unfolding json_body
  json_body-keeps body s = ground arith

  pub json_body-eq :
      (body : Option Json) (s : Mesh M) (b : Fields)
      → (json_body body s).0 ≡ ok b
      → body ≡ some (obj b)
  unfolding json_body
  json_body-eq body s b e = ground arith

module _ {M : Type 0} (out : Outside M) (t : Times) where
  vault-node_authorized :
      (r : Request) (s : Mesh M)
      → (node_authorized out t r s).1.auth.vault
        ≡ (verify_token out.crypto t.caller (bearer r) s.auth).1.vault
  unfolding node_authorized
  vault-node_authorized r s = ground arith

  pub node_authorized-Kept :
      (r : Request) (s : Mesh M) → Kept s.auth.vault (node_authorized out t r s).1.auth.vault
  node_authorized-Kept r s =
      rw (vault-node_authorized r s) (verify_token-Kept out.crypto t.caller (bearer r) s.auth)

  pub trust-node_authorized :
      (r : Request) (s : Mesh M) → (node_authorized out t r s).1.trust ≡ s.trust
  unfolding node_authorized
  trust-node_authorized r s = ground arith

  -- Whoever passes has an accepted token, and an id that is not empty.
  pub node_authorized-IsAdmitted :
      (r : Request) (s : Mesh M) (node : String)
      → (node_authorized out t r s).0 ≡ ok node
      → IsAdmitted out.crypto t.caller node s.auth × (node ≢ "")
  unfolding node_authorized
  node_authorized-IsAdmitted r s node e =
      let token = bearer r in
      elim (Result-cases (verify_token out.crypto t.caller token s.auth).0) [
        | inr (x, f) ↦ absurd (ground arith)
        | inl (none, f) ↦ absurd (ground arith)
        | inl (some id, f) ↦ elim (Bool-cases (str_eq id "")) [
          | inl y ↦ absurd (ground arith)
          | inr n ↦
              let same : id ≡ node = ground arith in
              (
                verify_token-IsAdmitted out.crypto t.caller node s.auth token
                    (f ∙ ap (λ i. ok (some i)) same),
                λ g. ground (arith, eq_iff id ""),
              )
        ]
      ]

  decide-keeps :
      (scope peer : String) (d : Option (Limiter × Decision)) (s : Mesh M)
      → ((decide out t scope peer d s).1.auth ≡ s.auth)
        × ((decide out t scope peer d s).1.trust ≡ s.trust)
        × ((decide out t scope peer d s).1.mesh_challenges ≡ s.mesh_challenges)
        × ((decide out t scope peer d s).1.pending_files ≡ s.pending_files)
        × ((decide out t scope peer d s).1.hub ≡ s.hub)
  unfolding decide record_activity
  decide-keeps scope peer none s = (refl, refl, refl, refl, refl)
  decide-keeps scope peer (some (l, d)) s =
      (ground arith, ground arith, ground arith, ground arith, ground arith)

  pub limit_peer-keeps :
      (scope peer : String) (s : Mesh M)
      → ((limit_peer out t scope peer s).1.auth ≡ s.auth)
        × ((limit_peer out t scope peer s).1.trust ≡ s.trust)
        × ((limit_peer out t scope peer s).1.mesh_challenges ≡ s.mesh_challenges)
        × ((limit_peer out t scope peer s).1.pending_files ≡ s.pending_files)
        × ((limit_peer out t scope peer s).1.hub ≡ s.hub)
  unfolding limit_peer
  limit_peer-keeps scope peer s = decide-keeps scope peer _ s

  pub require_owner-keeps : (r : Request) (s : Mesh M) → (require_owner out t r s).1 ≡ s
  unfolding require_owner
  require_owner-keeps r s = ground arith

  pub require_owner-eq :
      (r : Request) (s : Mesh M) (u : Unit {0})
      → (require_owner out t r s).0 ≡ ok u
      → owner_authorized out.gate r ≡ ok true
  unfolding require_owner
  require_owner-eq r s u e = ground arith

  pub auth-verify_body :
      (node : String) (body : Fields) (s : Mesh M) → (verify_body out t node body s).1.auth ≡ s.auth
  unfolding verify_body judged record_activity
  auth-verify_body node body s = ground arith

  -- What `verify` has found of a body that passes.
  pub verify_body-eq :
      (node : String) (body : Fields) (s : Mesh M) (signed : String)
      → (verify_body out t node body s).0 ≡ ok signed
      → (verify out.float_of out.text_of out.canonical out.hmac out.internal_ip t.envelope t.nonces
          (some node)
          (obj body)
          s.trust).0
        ≡ ok (verified, some signed)
  unfolding verify_body judged
  verify_body-eq node body s signed e = ground arith
