-- ===== src/Server/Revoking/Denied.antt =====
-- server.py, `api_mesh_revoke`: what a confirmed revocation rests on, and what it does.
use hermes_k2_monitor.Prelude.{
  ℕ, ◌≤◌, ◌≡◌, ◌≢◌, refl, sym, ap, ◌∙◌, String, true, false, Option, none, some, arith, eq_refl,
  lookup, erase, lookup-erase, Option-cases, inl, inr,
}
use hermes_k2_monitor.Monad.{Result, ok, raised, continue, continue-cases, Result-cases, ◌>>=◌}
use hermes_k2_monitor.Json.{Json, obj, Fields, get_field, is_text}
use hermes_k2_monitor.Trust.{text_field}
use hermes_k2_monitor.Vault.{Node}
use hermes_k2_monitor.Vault.Nodes.{revoke_node as revoke_in_vault}
use hermes_k2_monitor.Vault.Revocation.{Reach}
use hermes_k2_monitor.Auth.{Crypto, Auth}
use hermes_k2_monitor.Auth.Tokens.{verify_token, revoke_node}
use hermes_k2_monitor.Auth.Tokens.Denied.{verify_token-revoke_node}
use hermes_k2_monitor.Server.Gates.{Request, owner_authorized}
use hermes_k2_monitor.Server.Mesh.{
  Outside, Mesh, Challenge, Times, Reply, revoked_node, record_activity, json_body, require_owner,
  limit_request,
}
use hermes_k2_monitor.Server.Mesh.Keeps.{
  limit_peer-keeps, require_owner-keeps, require_owner-eq, json_body-keeps, json_body-eq,
}
use hermes_k2_monitor.Server.Revoking.{pop_challenge, confirm, revoke_confirmed, api_mesh_revoke}

-- What the body repeats of the challenge, which is for the node and not expired.
pub record Matches (now : ℕ) (fields : Fields) (id : String) (c : Challenge) : Type 0 where
  pub same_node : c.node_id ≡ id
  pub current : now ≤ c.expires_at
  pub names_node : is_text id (get_field "node_id" fields) ≡ true
  pub names_phrase : is_text c.phrase (get_field "confirmation" fields) ≡ true
  pub names_mesh : is_text "CONFIRM MESH REVOKE" (get_field "mesh_confirmation" fields) ≡ true

confirm-Matches :
    {M : Type 0} (t : Times) (fields : Fields) (c : Challenge) (s : Mesh M) (id : String)
    → (confirm t fields (some c) s).0 ≡ ok id
    → Matches t.caller fields id c
unfolding confirm
confirm-Matches t fields c s id e =
    let same : c.node_id ≡ id = ground arith in
    record {
      same_node = same;
      current = ground arith;
      names_node = rw (← same) (ground arith);
      names_phrase = ground arith;
      names_mesh = ground arith;
    }

confirm-none :
    {M : Type 0} (t : Times) (fields : Fields) (s : Mesh M) (id : String)
    → (confirm t fields none s).0 ≢ ok id
unfolding confirm
confirm-none t fields s id e = cc

confirm-keeps :
    {M : Type 0} (t : Times) (fields : Fields) (c : Option Challenge) (s : Mesh M)
    → (confirm t fields c s).1 ≡ s
unfolding confirm
confirm-keeps t fields none s = refl
confirm-keeps t fields (some c) s = ground arith

-- No token is accepted for the node from the state on.
abbrev pub IsDenied : {M : Type 0} → Outside M → String → Mesh M → Type 0
IsDenied out id w =
    (later : ℕ) (token : Option String) (b : Auth)
    → Reach out.digest out.text_of w.auth.vault b.vault
    → (verify_token out.crypto later token b).0 ≢ ok (some id)

revoke_node-found :
    (k : Crypto) (now : ℕ) (id : String) (a : Auth)
    → (revoke_node k now id a).0 ≡ ok true
    → (n : Node) × (lookup id a.vault.state.nodes ≡ some n)
unfolding revoke_node revoke_in_vault
revoke_node-found k now id a e = elim (Option-cases (lookup id a.vault.state.nodes)) [
  | inl f ↦ absurd (ground arith)
  | inr found ↦ found
]

module _ {M : Type 0} (out : Outside M) (t : Times) where
  revoke_confirmed-IsDenied :
      (id : String) (s : Mesh M) (y : Reply)
      → (revoke_confirmed out t id s).0 ≡ ok y
      → (y ≡ revoked_node id)
        × ((revoke_confirmed out t id s).1.mesh_challenges ≡ s.mesh_challenges)
        × IsDenied out id (revoke_confirmed out t id s).1
  unfolding revoke_confirmed record_activity
  revoke_confirmed-IsDenied id s y e =
      let k = out.crypto in
      elim (Result-cases (revoke_node k t.event id s.auth).0) [
        | inr (x, f) ↦ absurd (ground arith)
        | inl (false, f) ↦ absurd (ground arith)
        | inl (true, f) ↦
            let (n, old) = revoke_node-found k t.event id s.auth f in
            let same : (revoke_confirmed out t id s).1.auth ≡ (revoke_node k t.event id s.auth).1 =
              ground arith in
            (
              ground arith,
              ground arith,
              λ later token b r.
                  verify_token-revoke_node out.digest out.text_of k t.event later id n token s.auth
                    b old (rw (← same) r),
            )
      ]

-- A confirmed revocation: the owner asked for it, a challenge that is on file confirms it, the
-- challenge is spent, and no token is accepted for the node from then on.
pub record Revoked {M : Type 0} (out : Outside M) (t : Times) (r : Request) (body : Option Json)
    (s : Mesh M) (y : Reply) (w : Mesh M) : Type 0 where
  pub owner : owner_authorized out.gate r ≡ ok true
  pub fields : Fields
  pub is_body : body ≡ some (obj fields)
  pub id : String
  pub reply : y ≡ revoked_node id
  pub secret : String
  pub is_secret : text_field (get_field "challenge" fields) ≡ some secret
  pub challenge : Challenge
  pub filed : lookup secret s.mesh_challenges ≡ some challenge
  pub matches : Matches t.caller fields id challenge
  pub spent : lookup secret w.mesh_challenges ≡ none
  pub denied : IsDenied out id w

module _ {M : Type 0} (out : Outside M) (t : Times) (r : Request) (body : Option Json)
    (s : Mesh M) where
  abbrev OnlyRevoked : Result Reply Reply × Mesh M → Type 0
  OnlyRevoked o = (y : Reply) → o.0 ≡ ok y → Revoked out t r body s y o.1

  stopped : (e : Reply) (w : Mesh M) → OnlyRevoked (raised e, w)
  stopped e w y f = cc

  module _ (owner : owner_authorized out.gate r ≡ ok true) (fields : Fields)
      (is_body : body ≡ some (obj fields)) where
    -- The last steps, from what is popped on.
    confirm-OnlyRevoked :
        (secret : String) (c : Option Challenge) (w : Mesh M)
        → text_field (get_field "challenge" fields) ≡ some secret
        → lookup secret s.mesh_challenges ≡ c
        → lookup secret w.mesh_challenges ≡ none
        → OnlyRevoked (continue (revoke_confirmed out t) (confirm t fields c w))
    unfolding confirm
    confirm-OnlyRevoked secret none w is_secret filed spent = stopped _ w
    confirm-OnlyRevoked secret (some c) w is_secret filed spent =
        let o = confirm t fields (some c) w in
        continue-cases OnlyRevoked (revoke_confirmed out t) o (λ e _. stopped e o.1)
          (λ id good y f.
            let (reply, same, denied) = revoke_confirmed-IsDenied out t id o.1 y f in
            record {
              owner = owner;
              fields = fields;
              is_body = is_body;
              id = id;
              reply = reply;
              secret = secret;
              is_secret = is_secret;
              challenge = c;
              filed = filed;
              matches = confirm-Matches t fields c w id good;
              spent =
                  ap (lookup secret)
                    (same ∙ ap (λ x. x.mesh_challenges) (confirm-keeps t fields (some c) w))
                  ∙ spent;
              denied = denied;
            })

    pop_challenge-OnlyRevoked :
        (o : Option String) (w : Mesh M)
        → text_field (get_field "challenge" fields) ≡ o
        → w.mesh_challenges ≡ s.mesh_challenges
        → OnlyRevoked
            (continue (λ c. confirm t fields c >>= revoke_confirmed out t) (pop_challenge o w))
    unfolding pop_challenge confirm
    pop_challenge-OnlyRevoked none w e same = stopped _ w
    pop_challenge-OnlyRevoked (some secret) w e same =
        confirm-OnlyRevoked secret (lookup secret w.mesh_challenges)
          (record w { mesh_challenges = erase secret w.mesh_challenges }) e
          (ap (lookup secret) (sym same))
          (ground (arith, lookup-erase secret secret w.mesh_challenges, eq_refl secret))

-- If `api_mesh_revoke` answers with success, the owner has asked for it, and the body names a challenge
-- that was on file for the node and not expired, repeats its phrase and the node, and confirms the
-- mesh. The challenge is then spent, and no token is accepted for the node, whatever the vault goes
-- through by its methods on nodes, tasks and events.
pub api_mesh_revoke_lem :
    {M : Type 0} (out : Outside M) (t : Times) (r : Request) (body : Option Json) (s : Mesh M)
    (y : Reply)
    → (api_mesh_revoke out t r body s).0 ≡ ok y
    → Revoked out t r body s y (api_mesh_revoke out t r body s).1
unfolding api_mesh_revoke
api_mesh_revoke_lem out t r body s =
    let P = OnlyRevoked out t r body s in
    let stop = stopped out t r body s in
    let o = limit_request out t r "mesh-revoke-confirm" s in
    let (_, _, same, _, _) = limit_peer-keeps out t "mesh-revoke-confirm" _ s in
    continue-cases P _ o (λ e _. stop e o.1)
      (λ _ _.
        let p = require_owner out t r o.1 in
        let kept = require_owner-keeps out t r o.1 in
        continue-cases P _ p (λ e _. stop e p.1)
          (λ u asked.
            let q = json_body body p.1 in
            let read = json_body-keeps body p.1 in
            continue-cases P _ q (λ e _. stop e q.1)
              (λ fields is_body.
                pop_challenge-OnlyRevoked out t r body s (require_owner-eq out t r o.1 u asked)
                  fields (json_body-eq body p.1 fields is_body)
                  (text_field (get_field "challenge" fields)) q.1 refl
                  (ap (λ x. x.mesh_challenges) (read ∙ kept) ∙ same))))
