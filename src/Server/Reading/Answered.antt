-- ===== src/Server/Reading/Answered.antt =====
-- server.py, `api_collab_ledger`: who is shown the ledger, and what it is shown.
use hermes_k2_monitor.Prelude.{
  ℕ, ◌≡◌, ◌≤◌, ◌≢◌, ◌⊎◌, refl, ap, ◌∙◌, String, Option, none, some, arith, length, lookup,
  Option-cases, inl, inr,
}
use mathlib.Core.Path.{subst⁻¹}
use hermes_k2_monitor.Monad.{Result, ok, raised, continue, continue-cases, ◌>>=◌}
use hermes_k2_monitor.Json.{str, obj, Fields, get_field}
use hermes_k2_monitor.Trust.{verified, verify}
use hermes_k2_monitor.Trust.Replay.{accepts, verify-cases}
use hermes_k2_monitor.Trust.Signer.{verify-signer}
use hermes_k2_monitor.Vault.Audit.{read_ledger}
use hermes_k2_monitor.Vault.Audit.Reports.{length-read_ledger, read_ledger-same, audit_status-keeps}
use hermes_k2_monitor.Auth.Tokens.Denied.{IsAdmitted}
use hermes_k2_monitor.Server.Gates.{Request}
use hermes_k2_monitor.Server.Mesh.{
  Outside, Mesh, Times, Reply, ledger_read, record_activity, judged, node_authorized, limit_peer,
  after_state,
}
use hermes_k2_monitor.Server.Mesh.Keeps.{
  Kept, Kept-trans, node_authorized-Kept, trust-node_authorized, node_authorized-IsAdmitted,
  limit_peer-keeps,
}
use hermes_k2_monitor.Server.Reading.{
  Query, given, limit_of, read_message, message_of, signed_query, verify_query, read_end,
  api_collab_ledger,
}

module _ {M : Type 0} (out : Outside M) (t : Times) where
  verify_query-auth :
      (node : String) (signed : Fields) (s : Mesh M)
      → (verify_query out t node signed s).1.auth ≡ s.auth
  unfolding verify_query judged record_activity
  verify_query-auth node signed s = ground arith

  after_state-Kept : (s : Mesh M) → Kept s.auth.vault (after_state out t s).auth.vault
  after_state-Kept s =
      let (l, a, f) = audit_status-keeps out.digest s.auth.vault in
      record { ledger = l; audit = a; files = f }

  verify_query-eq :
      (node : String) (signed : Fields) (s : Mesh M) (u : String)
      → (verify_query out t node signed s).0 ≡ ok u
      → (verify out.float_of out.text_of out.canonical out.hmac out.internal_ip t.envelope t.nonces
          (some node)
          (obj signed)
          s.trust).0
        ≡ ok (verified, some u)
  unfolding verify_query judged
  verify_query-eq node signed s u e = ground arith

-- The parts of a query that gives all of them.
pub record Signed (node : String) (limit : ℕ) (q : Query) (message : Fields) : Type 0 where
  pub nonce : String
  pub ts : String
  pub sig : String
  pub nonce_given : given q.nonce ≡ some nonce
  pub ts_given : given q.ts ≡ some ts
  pub sig_given : given q.sig ≡ some sig
  pub is_message : message ≡ read_message node limit nonce ts sig

message_of-Signed :
    (node : String) (limit : ℕ) (q : Query) (message : Fields)
    → message_of node limit q ≡ some message
    → Signed node limit q message
unfolding message_of
message_of-Signed node limit q message e = elim (Option-cases (given q.nonce)) [
  | inl f ↦ absurd (ground (arith, f))
  | inr (n, f) ↦ elim (Option-cases (given q.ts)) [
    | inl g ↦ absurd (ground (arith, f, g))
    | inr (t, g) ↦ elim (Option-cases (given q.sig)) [
      | inl h ↦ absurd (ground (arith, f, g, h))
      | inr (s, h) ↦ record {
        nonce = n;
        ts = t;
        sig = s;
        nonce_given = f;
        ts_given = g;
        sig_given = h;
        is_message = ground (arith, f, g, h);
      }
    ]
  ]
]

module _ {M : Type 0} (out : Outside M) (t : Times) (int_of : String → Option ℕ) (q : Query)
    (s : Mesh M) where
  -- `verify` accepts the message for the node.
  abbrev pub IsValid : String → Fields → Type 0
  IsValid node message =
      (verify out.float_of out.text_of out.canonical out.hmac out.internal_ip t.envelope t.nonces
        (some node) (obj message) s.trust).0
      ≡ ok (verified, some node)

  -- The ledger is shown to an admitted node that has signed the query with a nonce that was not on
  -- file.
  pub record Shown (answer : Result Reply Reply) : Type 0 where
    pub node : String
    pub admitted : IsAdmitted out.crypto t.caller node s.auth
    pub message : Fields
    pub signed : Signed node (limit_of int_of q.limit) q message
    pub valid : IsValid node message
    pub fresh : lookup signed.nonce s.trust.nonces ≡ none
    pub shown : answer ≡ ok (ledger_read (read_ledger (limit_of int_of q.limit) s.auth.vault))
    pub short : length (read_ledger (limit_of int_of q.limit) s.auth.vault) ≤ 500

  -- A refusal, or the ledger for a node that may read it; the files are what they were.
  pub record Outcome (o : Result Reply Reply × Mesh M) : Type 0 where
    pub either : ((e : Reply) × (o.0 ≡ raised e)) ⊎ Shown o.0
    pub kept : Kept s.auth.vault o.1.auth.vault

  stopped : (e : Reply) (w : Mesh M) → Kept s.auth.vault w.auth.vault → Outcome (raised e, w)
  stopped e w k = record { either = inl (e, refl); kept = k }

  -- A nonce that `verify` lets pass was not on file.
  verified-fresh :
      (node n ts sig : String) (limit : ℕ)
      → IsValid node (read_message node limit n ts sig)
      → lookup n s.trust.nonces ≡ none
  unfolding get_field
  verified-fresh node n ts sig limit e =
      elim (verify-cases out.float_of out.text_of out.canonical out.hmac out.internal_ip t.envelope
        t.nonces (some node) (read_message node limit n ts sig) s.trust) [
          | inl (n, _) ↦ absurd (cc (ap accepts e, n))
          | inr (_, m, f, a) ↦ let g : some (str n) ≡ some (str m) = f in cc (a.new, g)
        ]

  -- From the query on, for a node that is admitted.
  signed-Outcome :
      (node : String) (message : Fields) (w : Mesh M)
      → IsAdmitted out.crypto t.caller node s.auth
      → node ≢ ""
      → Signed node (limit_of int_of q.limit) q message
      → Kept s.auth.vault w.auth.vault
      → w.trust ≡ s.trust
      → Outcome (
          continue
            (λ _. read_end out t (limit_of int_of q.limit))
            (verify_query out t node message w))
  signed-Outcome node message w admitted ne signed k trusted =
      let o = verify_query out t node message w in
      let k' : Kept s.auth.vault o.1.auth.vault =
        subst⁻¹ (λ a. Kept s.auth.vault a.vault) (verify_query-auth out t node message w) k in
      continue-cases Outcome _ o (λ e _. stopped e o.1 k')
        (λ u good.
          let checked = verify_query-eq out t node message w u good in
          let own : u ≡ node =
            verify-signer out.float_of out.text_of out.canonical out.hmac out.internal_ip t.envelope
              t.nonces node u message verified w.trust ne checked in
          let valid : IsValid node message = rw (← trusted, checked, own) refl in
          record {
            either = inr (record {
              node = node;
              admitted = admitted;
              message = message;
              signed = signed;
              valid = valid;
              fresh =
                  verified-fresh node signed.nonce signed.ts signed.sig (limit_of int_of q.limit)
                    (rw (← signed.is_message) valid);
              shown =
                  ap (λ l. ok (ledger_read l))
                    (read_ledger-same _ o.1.auth.vault s.auth.vault k'.ledger);
              short = length-read_ledger (limit_of int_of q.limit) s.auth.vault;
            });
            kept = Kept-trans k' (after_state-Kept out t o.1);
          })

  -- `_rate_limit`, and the parameters of the query
  limited-Outcome :
      (node : String) (w : Mesh M)
      → IsAdmitted out.crypto t.caller node s.auth
      → node ≢ ""
      → Kept s.auth.vault w.auth.vault
      → w.trust ≡ s.trust
      → Outcome (
          (limit_peer out t "ledger" node >>= λ _.
          signed_query node (limit_of int_of q.limit) q >>= λ message.
          verify_query out t node message >>= λ _. read_end out t (limit_of int_of q.limit))
            w)
  unfolding signed_query
  limited-Outcome node w admitted ne k trusted =
      let o = limit_peer out t "ledger" node w in
      let (a, u, _, _, _) = limit_peer-keeps out t "ledger" node w in
      let k' : Kept s.auth.vault o.1.auth.vault = subst⁻¹ (λ x. Kept s.auth.vault x.vault) a k in
      continue-cases Outcome _ o (λ e _. stopped e o.1 k')
        (λ _ _. elim (Option-cases (message_of node (limit_of int_of q.limit) q)) [
          | inl e ↦ rw (signed_query, e) (stopped _ o.1 k')
          | inr (message, e) ↦
              rw (signed_query, e)
                (signed-Outcome node message o.1 admitted ne (message_of-Signed node _ q message e)
                  k' (u ∙ trusted))
        ])

-- Whatever a request to `api_collab_ledger` is and however it ends, the ledger, the audit file and the
-- files are what they were, and either it is refused, or its caller has an accepted token, is active
-- and certified, has signed the query with a nonce that was not on file, and is shown the last entries
-- of the ledger, 500 at most.
pub api_collab_ledger_lem :
    {M : Type 0} (out : Outside M) (t : Times) (int_of : String → Option ℕ) (r : Request)
    (q : Query) (s : Mesh M)
    → Outcome out t int_of q s (api_collab_ledger out t int_of r q s)
unfolding api_collab_ledger
api_collab_ledger_lem out t int_of r q s =
    let o = node_authorized out t r s in
    let k = node_authorized-Kept out t r s in
    continue-cases (Outcome out t int_of q s) _ o (λ e _. stopped out t int_of q s e o.1 k)
      (λ node passed.
        let (admitted, ne) = node_authorized-IsAdmitted out t r s node passed in
        limited-Outcome out t int_of q s node o.1 admitted ne k (trust-node_authorized out t r s))
