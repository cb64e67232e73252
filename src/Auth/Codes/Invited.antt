-- ===== src/Auth/Codes/Invited.antt =====
-- collab/auth.py: a code of `create_invite` lets its node in.
use hermes_k2_monitor.Prelude.{
  ℕ, ◌+◌, ◌*◌, ◌<◌, ◌≡◌, refl, ap, ◌∙◌, String, true, false, not, ◌||◌, List, [], ◌∷◌, ◌++◌, none,
  some, arith, str_eq, eq_refl, keep_if, lookup, Bool-cases, Option-cases, inl, inr, ltb,
}
use hermes_k2_monitor.Monad.{ok}
use hermes_k2_monitor.Identity.{Cert, issue}
use hermes_k2_monitor.Vault.Nodes.{register_node}
use hermes_k2_monitor.Auth.State.{Crypto, Code, Token, Auth}
use hermes_k2_monitor.Auth.Codes.{
  Expiry, agrees, is_open, is_match, use_up, is_valid_node_id, new_code, create_invite,
  after_search, admit_node, join,
}
use hermes_k2_monitor.Auth.Codes.Once.{join-search}

-- A matching code is found, if not an earlier one.
use_up-last :
    (now : ℕ) (id h : String) (expiry : Expiry) (cs : List Code) (c : Code)
    → is_match now id h expiry c ≡ true
    → (cs' : List Code) × (use_up now id h expiry (cs ++ c ∷ []) ≡ some cs')
unfolding use_up
use_up-last now id h expiry [] c m = (record c { used = true } ∷ [], rw m refl)
use_up-last now id h expiry (x ∷ cs) c m =
    let (rest, e) = use_up-last now id h expiry cs c m in
    elim (Bool-cases (is_match now id h expiry x)) [
      | inl y ↦ (record x { used = true } ∷ cs ++ c ∷ [], rw y refl)
      | inr n ↦ (x ∷ rest, rw (n, e) refl)
    ]

module _ (k : Crypto) (now later : ℕ) (id code : String) (expiry : Expiry) (token key : String)
    (cert : Cert) where
  -- The new node is registered, once the certificate is issued.
  admit_node-ok :
      (cs : List Code) (ts : List Token) (a : Auth)
      → lookup id a.vault.state.nodes ≡ none
      → (issue k.material k.sign k.is_key later id key a.identity).0 ≡ ok cert
      → a.tokens ≡ some ts
      → (admit_node k later id token key cs a).0
        ≡ ok (record {
          node_id = id;
          token = token;
          expires_at = later + 86400000;
          certificate = cert;
        })
  unfolding register_node
  admit_node-ok cs ts a new issued stored = ground arith

  -- A node that has just been invited joins with the code of the invitation while it is open, as long as it says
  -- nothing of the expiry or what it was told, and is not in the vault; if a certificate can be issued
  -- for it and the token store can be read. It gets the new token, for a day, and the certificate.
  pub join-create_invite :
      (a : Auth) (ttl : ℕ) (ts : List Token)
      → (create_invite k now code (some id) (some ttl) a).0 ≡ ok (code, now + 1000 * ttl, some id)
      → str_eq code "" ≡ false
      → later < now + 1000 * ttl
      → agrees expiry later (now + 1000 * ttl) ≡ true
      → lookup id a.vault.state.nodes ≡ none
      → (issue k.material k.sign k.is_key later id key a.identity).0 ≡ ok cert
      → a.tokens ≡ some ts
      → (join k later id code expiry token key
          (create_invite k now code (some id) (some ttl) a).1).0
        ≡ ok (record {
          node_id = id;
          token = token;
          expires_at = later + 86400000;
          certificate = cert;
        })
  unfolding create_invite
  join-create_invite a ttl ts sent ne fresh said new issued stored =
      elim (Bool-cases (not (is_valid_node_id k id))) [
        | inl bad ↦ absurd (ground arith)
        | inr good ↦ elim (Bool-cases (ltb ttl 1 || ltb 86400 ttl)) [
          | inl bad ↦ absurd (ground arith)
          | inr fits ↦ elim (Option-cases a.join_codes) [
            | inl e ↦ absurd (ground arith)
            | inr (cs, e) ↦
                let c = new_code k now code (some id) ttl in
                let old = keep_if (is_open now) cs in
                let m : is_match later id (k.hash code) expiry c ≡ true =
                  ground (arith, said, eq_refl (k.hash code), eq_refl id) in
                let (cs', f) = use_up-last later id (k.hash code) expiry old c m in
                let b = record a { join_codes = some (old ++ c ∷ []) } in
                let ready : not (is_valid_node_id k id) || str_eq code "" ≡ false = ground arith in
                let made : (create_invite k now code (some id) (some ttl) a).1 ≡ b =
                  rw (create_invite, good, fits, e) refl in
                ap (λ x. (join k later id code expiry token key x).0) made
                ∙ ap (λ x. x.0)
                    (join-search k later id code expiry token key b (old ++ c ∷ []) ready refl)
                ∙ ap (λ o. (after_search k later id token key o b).0) f
                ∙ admit_node-ok cs' ts b new issued stored
          ]
        ]
      ]
