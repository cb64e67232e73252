-- ===== src/Auth/Codes.antt =====
-- collab/auth.py: `create_invite` and `join`.
pub mod Once
pub mod Invited
use hermes_k2_monitor.Prelude.{
  ℕ, ◌+◌, ◌*◌, String, Bool, true, false, not, ◌&&◌, ◌||◌, List, [], ◌∷◌, ◌++◌, Option, none, some,
  ltb, leb, ◌==◌, str_eq, if◌then◌else◌, length, any, keep_if, lookup, is_some,
}
use hermes_k2_monitor.Text.{codes as code_points}
use hermes_k2_monitor.Monad.{Result, ok, raised, Exec}
use hermes_k2_monitor.Identity.{Cert, Identity, issue}
use hermes_k2_monitor.Vault.{Vault}
use hermes_k2_monitor.Vault.Nodes.{register_node}
use hermes_k2_monitor.Auth.State.{
  Crypto, AuthError, invalid_node_id, invalid_ttl, ttl_range, invalid_code, already_registered,
  store_unreadable, identity_error, vault_error, Code, Token, Auth, with_store,
}

-- not used, and not expired
abbrev pub is_open : ℕ → Code → Bool
is_open now c = not c.used && ltb now c.expires_at

-- `item.get("node_id") in (None, node_id)`
abbrev pub is_for : String → Option String → Bool
is_for id none = true
is_for id (some j) = str_eq j id

-- What the caller says of the expiry: nothing, a time, or a text that is no time.
pub data Expiry : Type 0 where
  unsaid unreadable : Expiry
  said : ℕ → Expiry

abbrev pub agrees : Expiry → ℕ → ℕ → Bool
agrees unsaid now expires = true
agrees unreadable now expires = false
agrees (said t) now expires = ltb now t && (t == expires)

-- The tests of the loop in `join` on an entry.
abbrev pub is_match : ℕ → String → String → Expiry → Code → Bool
is_match now id h expiry c =
    not c.used
    && str_eq c.code_hash h
    && ltb now c.expires_at
    && is_for id c.node_id
    && agrees expiry now c.expires_at

-- `match["used_at"] = …` for the first entry that passes, `none` if none does
unfoldable pub use_up : ℕ → String → String → Expiry → List Code → Option (List Code)
use_up now id h expiry [] = none
use_up now id h expiry (c ∷ cs) =
    let rest = use_up now id h expiry cs in
    if is_match now id h expiry c
    then some (record c { used = true } ∷ cs)
    else elim rest [ none ↦ none | some cs' ↦ some (c ∷ cs') ]

pub record Joined : Type 0 where
  pub node_id : String
  pub token : String
  pub expires_at : ℕ
  pub certificate : Cert

-- not revoked, and not expired
abbrev pub is_live : ℕ → Token → Bool
is_live now t = not t.revoked && ltb now t.expires_at

module _ (k : Crypto) where
  abbrev is_alnum : ℕ → Bool
  is_alnum c =
      if ltb c 128
      then leb b'a' c && leb c b'z' || leb b'A' c && leb c b'Z' || leb b'0' c && leb c b'9'
      else k.is_alnum_above c

  -- `_valid_node_id` of a text
  unfoldable pub is_valid_node_id : String → Bool
  is_valid_node_id id =
      leb 3 (length (code_points id))
      && leb (length (code_points id)) 64
      && not (any (λ c. not (is_alnum c || (c == b'_') || (c == b'-'))) (code_points id))

  abbrev is_allowed_id : Option String → Bool
  is_allowed_id none = true
  is_allowed_id (some id) = is_valid_node_id id

  abbrev pub new_code : ℕ → String → Option String → ℕ → Code
  new_code now code node_id ttl = record {
    code_hash = k.hash code;
    node_id = node_id;
    expires_at = now + 1000 * ttl;
    used = false;
  }

  -- `create_invite`, which returns the code, its expiry and the node id. `ttl` is what `int` makes of
  -- the argument, `none` if it raises and 0 for a negative number; `code` is the fresh code.
  unfoldable pub create_invite :
      ℕ → String → Option String → Option ℕ → Exec AuthError Auth (String × ℕ × Option String)
  create_invite now code node_id ttl a =
      if not (is_allowed_id node_id) then (raised invalid_node_id, a) else elim ttl [
        | none ↦ (raised invalid_ttl, a)
        | some t ↦
            if ltb t 1 || ltb 86400 t
            then (raised ttl_range, a)
            else with_store a.join_codes
                (λ cs b. (
                  ok (code, now + 1000 * t, node_id),
                  record b {
                    join_codes =
                        some (keep_if (is_open now) cs ++ new_code now code node_id t ∷ []);
                  },
                ))
                a
      ]

  abbrev pub new_token : ℕ → String → String → Token
  new_token now id token = record {
    node_id = id;
    token_hash = k.hash token;
    issued_at = now;
    expires_at = now + 86400000;
    revoked = false;
  }

  -- The end of `join`: the node enters the vault.
  abbrev pub enter : ℕ → String → String → Cert → Exec AuthError Auth Joined
  enter now id token cert a =
      let (o, v) = register_node (k.iso now) id "collab" 86400 a.vault in
      elim o [
        | ok _ ↦ (
          ok (record {
            node_id = id;
            token = token;
            expires_at = now + 86400000;
            certificate = cert;
          }),
          record a { vault = v },
        )
        | raised e ↦ (raised (vault_error e), record a { vault = v })
      ]

  -- The token store gets the new token.
  abbrev pub grant : ℕ → String → String → Cert → Exec AuthError Auth Joined
  grant now id token cert a =
      with_store a.tokens
        (λ ts b.
          enter now id token cert
            (record b { tokens = some (keep_if (is_live now) ts ++ new_token now id token ∷ []) }))
        a

  -- From the match on: `cs` is the store with the code used up, which is written once the
  -- certificate is issued.
  abbrev pub admit_node : ℕ → String → String → String → List Code → Exec AuthError Auth Joined
  admit_node now id token key cs a =
      if is_some (lookup id a.vault.state.nodes)
      then (raised already_registered, a)
      else let (o, i) = issue k.material k.sign k.is_key now id key a.identity in
        elim o [
          | raised e ↦ (raised (identity_error e), record a { identity = i })
          | ok cert ↦ grant now id token cert (record a { identity = i; join_codes = some cs })
        ]

  -- what follows the search for a code
  abbrev pub after_search :
      ℕ → String → String → String → Option (List Code) → Exec AuthError Auth Joined
  after_search now id token key none a = (raised invalid_code, a)
  after_search now id token key (some cs) a = admit_node now id token key cs a

  -- `join` with texts for the node id and the code; `token` and `key` are the fresh token and the
  -- public key of the fresh private key
  unfoldable pub join : ℕ → String → String → Expiry → String → String → Exec AuthError Auth Joined
  unfolding use_up
  join now id code expiry token key a =
      if not (is_valid_node_id id) || str_eq code ""
      then (raised invalid_code, a)
      else with_store a.join_codes
          (λ cs. after_search now id token key (use_up now id (k.hash code) expiry cs)) a
