-- ===== src/Auth/Tokens/Accepted.antt =====
-- collab/auth.py: the token that `join` returns is accepted by `verify_token`.
use hermes_k2_monitor.Prelude.{
  ℕ, ◌+◌, ◌<◌, ◌≡◌, refl, sym, ap, ◌∙◌, String, Bool, true, false, not, ◌||◌, List, [], ◌∷◌, ◌++◌,
  none, some, arith, str_eq, eq_refl, any, keep_if, lookup, lookup-insert, Bool-cases, Option-cases,
  inl, inr,
}
use hermes_k2_monitor.Monad.{ok, Result-cases}
use hermes_k2_monitor.Identity.{Cert, issue, verify as verify_cert_of}
use hermes_k2_monitor.Identity.Certificates.{verify-issue}
use hermes_k2_monitor.Vault.{Vault}
use hermes_k2_monitor.Vault.Nodes.{register_node, joined_node}
use hermes_k2_monitor.Auth.State.{Crypto, Code, Token, Auth}
use hermes_k2_monitor.Auth.Codes.{
  Expiry, Joined, is_live, new_token, use_up, is_valid_node_id, admit_node, after_search, join,
}
use hermes_k2_monitor.Auth.Codes.Once.{join-search}
use hermes_k2_monitor.Auth.Tokens.{
  is_presented, is_active_node, is_certified, mem_text, search_token, verify_token,
}

abbrev pub has_hash : String → Token → Bool
has_hash h t = str_eq t.token_hash h

any-keep_if :
    (p q : Token → Bool) (ts : List Token) → any p ts ≡ false → any p (keep_if q ts) ≡ false
any-keep_if p q [] e = refl
any-keep_if p q (t ∷ ts) e = ground (arith, any-keep_if p q ts)

module _ (k : Crypto) (now : ℕ) (h : String) (a : Auth) where
  -- Tokens with other hashes are passed over.
  search_token-append :
      (ts : List Token) (t : Token)
      → any (has_hash h) ts ≡ false
      → search_token k now h (ts ++ t ∷ []) a ≡ search_token k now h (t ∷ []) a
  unfolding search_token
  search_token-append [] t e = refl
  search_token-append (x ∷ ts) t e = ground (arith, search_token-append ts t)

  search_token-first :
      (t : Token) (gone : List String)
      → is_presented now h t ≡ true
      → is_active_node (lookup t.node_id a.vault.state.nodes) ≡ true
      → a.revoked_nodes ≡ some gone
      → mem_text t.node_id gone ≡ false
      → is_certified k now t.node_id a ≡ true
      → (search_token k now h (t ∷ []) a).0 ≡ ok (some t.node_id)
  unfolding search_token
  search_token-first t gone p act r m c = ground arith

verify_token-search :
    (k : Crypto) (now : ℕ) (token : String) (a : Auth) (ts : List Token)
    → str_eq token "" ≡ false
    → a.tokens ≡ some ts
    → (verify_token k now (some token) a).0 ≡ (search_token k now (k.hash token) ts a).0
unfolding verify_token
verify_token-search k now token a ts ne e = ground arith

-- The vault, the tokens and the certificates after a call of `join` that succeeds.
record Entered (k : Crypto) (now : ℕ) (id token key : String) (a b : Auth) : Type 0 where
  cert : Cert
  new : lookup id a.vault.state.nodes ≡ none
  issued : (issue k.material k.sign k.is_key now id key a.identity).0 ≡ ok cert
  identity : b.identity ≡ (issue k.material k.sign k.is_key now id key a.identity).1
  vault : b.vault ≡ (register_node (k.iso now) id "collab" 86400 a.vault).1
  ts : List Token
  old_tokens : a.tokens ≡ some ts
  tokens : b.tokens ≡ some (keep_if (is_live now) ts ++ new_token k now id token ∷ [])
  revoked_nodes : b.revoked_nodes ≡ a.revoked_nodes

admit_node-Entered :
    (k : Crypto) (now : ℕ) (id token key : String) (cs : List Code) (a : Auth) (r : Joined)
    → (admit_node k now id token key cs a).0 ≡ ok r
    → Entered k now id token key a (admit_node k now id token key cs a).1
admit_node-Entered k now id token key cs a r e =
    elim (Option-cases (lookup id a.vault.state.nodes)) [
      | inr (n, f) ↦ absurd (ground arith)
      | inl f ↦ elim (Result-cases (issue k.material k.sign k.is_key now id key a.identity).0) [
        | inr (bad, g) ↦ absurd (ground arith)
        | inl (cert, g) ↦ elim (Option-cases a.tokens) [
          | inl t ↦ absurd (ground arith)
          | inr (ts, t) ↦ record {
            cert = cert;
            new = f;
            issued = g;
            identity = ground arith;
            vault = ground arith;
            ts = ts;
            old_tokens = t;
            tokens = ground arith;
            revoked_nodes = ground arith;
          }
        ]
      ]
    ]

join-Entered :
    (k : Crypto) (now : ℕ) (id code : String) (expiry : Expiry) (token key : String) (a : Auth)
    (r : Joined)
    → (join k now id code expiry token key a).0 ≡ ok r
    → Entered k now id token key a (join k now id code expiry token key a).1
unfolding join
join-Entered k now id code expiry token key a r e =
    elim (Bool-cases (not (is_valid_node_id k id) || str_eq code "")) [
      | inl bad ↦ absurd (ground arith)
      | inr good ↦ elim (Option-cases a.join_codes) [
        | inl f ↦ absurd (ground arith)
        | inr (cs, f) ↦ elim (Option-cases (use_up now id (k.hash code) expiry cs)) [
          | inl g ↦ absurd (cc (join-search k now id code expiry token key a cs good f, g, e))
          | inr (cs', g) ↦
              let s : join k now id code expiry token key a ≡ admit_node k now id token key cs' a =
                join-search k now id code expiry token key a cs good f
                ∙ ap (λ o. after_search k now id token key o a) g in
              rw s (admit_node-Entered k now id token key cs' a r (sym (ap (λ x. x.0) s) ∙ e))
        ]
      ]
    ]

active-register_node :
    (now id role : String) (ttl : ℕ) (v : Vault)
    → lookup id v.state.nodes ≡ none
    → is_active_node (lookup id (register_node now id role ttl v).1.state.nodes) ≡ true
unfolding register_node
active-register_node now id role ttl v e =
    ground (arith, lookup-insert id id (joined_node now role ttl none) v.state.nodes, eq_refl id)

-- What `verify_token` looks at for a node: the tokens, the revoked nodes, the certificates, and whether
-- the node is active.
pub record IsAlike (id : String) (a b : Auth) : Type 0 where
  pub tokens : b.tokens ≡ a.tokens
  pub revoked_nodes : b.revoked_nodes ≡ a.revoked_nodes
  pub identity : b.identity ≡ a.identity
  pub active :
      is_active_node (lookup id b.vault.state.nodes)
      ≡ is_active_node (lookup id a.vault.state.nodes)

-- The token of a call of `join` that succeeds is accepted as that of its node for a day, as long as
-- the certificate is within its validity: if the CA's signatures check, the node is on no list of
-- revoked nodes, the token is not empty, and no token in the store has its hash already. That holds
-- in every state that is alike for the node.
pub verify_token-join :
    (k : Crypto) (now later : ℕ) (id code : String) (expiry : Expiry) (token key : String)
    (a b : Auth) (r : Joined) (ts : List Token) (gone : List String)
    → IsAlike id (join k now id code expiry token key a).1 b
    → ((m : String) → k.check m (k.sign m) ≡ true)
    → (join k now id code expiry token key a).0 ≡ ok r
    → a.tokens ≡ some ts
    → any (has_hash (k.hash token)) ts ≡ false
    → a.revoked_nodes ≡ some gone
    → mem_text id gone ≡ false
    → str_eq token "" ≡ false
    → later < now + 86400000
    → later < now + a.identity.validity
    → (verify_token k later (some token) b).0 ≡ ok (some id)
unfolding verify_token
verify_token-join k now later id code expiry token key a b r ts gone same checks e old fresh listed
      absent ne day valid =
    let n = join-Entered k now id code expiry token key a r e in
    let t = new_token k now id token in
    let fresh' : any (has_hash (k.hash token)) (keep_if (is_live now) n.ts) ≡ false =
      any-keep_if (has_hash (k.hash token)) (is_live now) n.ts (ground arith) in
    let certified : is_certified k later id b ≡ true =
      ap (λ i. verify_cert_of k.material k.check k.is_key later id none i)
        (same.identity ∙ n.identity)
      ∙ verify-issue k.material k.sign k.check k.is_key now later id key n.cert a.identity checks
          n.issued
      ∙ ground arith in
    let act : is_active_node (lookup id b.vault.state.nodes) ≡ true =
      same.active
      ∙ ap (λ v. is_active_node (lookup id v.state.nodes)) n.vault
      ∙ active-register_node (k.iso now) id "collab" 86400 a.vault n.new in
    let found : (search_token k later (k.hash token) (t ∷ []) b).0 ≡ ok (some id) =
      search_token-first k later (k.hash token) b t gone (ground (arith, eq_refl (k.hash token)))
        act (same.revoked_nodes ∙ n.revoked_nodes ∙ listed) absent certified in
    let skipped : search_token k later (k.hash token) (keep_if (is_live now) n.ts ++ t ∷ []) b
        ≡ search_token k later (k.hash token) (t ∷ []) b =
      search_token-append k later (k.hash token) b (keep_if (is_live now) n.ts) t fresh' in
    verify_token-search k later token b (keep_if (is_live now) n.ts ++ t ∷ []) ne
      (same.tokens ∙ n.tokens)
    ∙ ap (λ x. x.0) skipped
    ∙ found
