-- ===== src/Server/Joining/Admitted.antt =====
-- server.py, `api_join` and `_node_authorized`: who has joined may call the routes of the nodes.
use hermes_k2_monitor.Prelude.{
  ℕ, ◌+◌, ◌<◌, ◌≡◌, sym, ap, ◌∙◌, String, true, false, not, ◌||◌, List, Option, none, some, arith,
  any, str_eq, eq_iff, lookup, Bool-cases, Option-cases, inl, inr,
}
use mathlib.Core.Path.{subst}
use hermes_k2_monitor.Monad.{Result, ok, continue-cases, Result-cases}
use hermes_k2_monitor.Json.{Json, get_field}
use hermes_k2_monitor.Trust.{text_field}
use hermes_k2_monitor.Identity.{issue}
use hermes_k2_monitor.Auth.{Crypto, Token, Code, Auth}
use hermes_k2_monitor.Auth.Codes.{
  Expiry, Joined, use_up, is_valid_node_id, admit_node, after_search, join,
}
use hermes_k2_monitor.Auth.Codes.Once.{join-search}
use hermes_k2_monitor.Auth.Tokens.{mem_text, verify_token}
use hermes_k2_monitor.Auth.Tokens.Accepted.{IsAlike, has_hash, verify_token-join}
use hermes_k2_monitor.Server.Gates.{Request, bearer}
use hermes_k2_monitor.Server.Mesh.{
  Outside, Mesh, Times, Reply, joined, record_activity, json_body, limit_request, node_authorized,
}
use hermes_k2_monitor.Server.Mesh.Keeps.{limit_peer-keeps, json_body-keeps}
use hermes_k2_monitor.Server.Joining.{auth_call, code_in, expiry_of, join_values, api_join}

admit_node-id :
    (k : Crypto) (now : ℕ) (id token key : String) (cs : List Code) (a : Auth) (r : Joined)
    → (admit_node k now id token key cs a).0 ≡ ok r
    → r.node_id ≡ id
admit_node-id k now id token key cs a r e = elim (Option-cases (lookup id a.vault.state.nodes)) [
  | inr (n, f) ↦ absurd (ground arith)
  | inl f ↦ elim (Result-cases (issue k.material k.sign k.is_key now id key a.identity).0) [
    | inr (bad, g) ↦ absurd (ground arith)
    | inl (cert, g) ↦ elim (Option-cases a.tokens) [
      | inl t ↦ absurd (ground arith)
      | inr (ts, t) ↦ ground arith
    ]
  ]
]

-- A node that joins has the id that it asked for, and that id is a valid one.
join-id :
    (k : Crypto) (now : ℕ) (id code : String) (expiry : Expiry) (token key : String) (a : Auth)
    (r : Joined)
    → (join k now id code expiry token key a).0 ≡ ok r
    → (r.node_id ≡ id) × (is_valid_node_id k id ≡ true)
unfolding join
join-id k now id code expiry token key a r e =
    elim (Bool-cases (not (is_valid_node_id k id) || str_eq code "")) [
      | inl bad ↦ absurd (ground arith)
      | inr good ↦ elim (Option-cases a.join_codes) [
        | inl f ↦ absurd (ground arith)
        | inr (cs, f) ↦ elim (Option-cases (use_up now id (k.hash code) expiry cs)) [
          | inl g ↦ absurd (cc (join-search k now id code expiry token key a cs good f, g, e))
          | inr (cs', g) ↦
              let p : (after_search k now id token key (some cs') a).0 ≡ ok r =
                ap (λ o. (after_search k now id token key o a).0) (sym g)
                ∙ ap (λ x. x.0) (sym (join-search k now id code expiry token key a cs good f))
                ∙ e in
              (admit_node-id k now id token key cs' a r p, ground arith)
        ]
      ]
    ]

is_valid_node_id-not_empty :
    (k : Crypto) (id : String) → is_valid_node_id k id ≡ true → str_eq id "" ≡ false
unfolding is_valid_node_id
is_valid_node_id-not_empty k id e = elim (Bool-cases (str_eq id "")) [
  | inr n ↦ n
  | inl y ↦
      let empty : is_valid_node_id k "" ≡ true =
        ap (is_valid_node_id k) (sym ((eq_iff id "").0 y)) ∙ e in
      absurd cc
]

module _ {M : Type 0} (out : Outside M) (int_of parse_iso : String → Option ℕ) (t : Times)
    (token key : String) where
  -- A call of `join` that has returned `j`, and what it has left.
  record Joins (j : Joined) (before after : Auth) : Type 0 where
    id : String
    code : String
    expiry : Expiry
    returned : (join out.crypto t.caller id code expiry token key before).0 ≡ ok j
    left : after ≡ (join out.crypto t.caller id code expiry token key before).1

  join_values-Joins :
      (id code : Option String) (expiry : Option Expiry) (s : Mesh M) (j : Joined)
      → (join_values out int_of parse_iso t token key id code expiry s).0 ≡ ok j
      → Joins j s.auth (join_values out int_of parse_iso t token key id code expiry s).1.auth
  unfolding join_values auth_call
  join_values-Joins none code expiry s j e = absurd cc
  join_values-Joins (some id) none expiry s j e = absurd cc
  join_values-Joins (some id) (some code) none s j e = absurd cc
  join_values-Joins (some id) (some code) (some expiry) s j e =
      elim (Result-cases (join out.crypto t.caller id code expiry token key s.auth).0) [
        | inr (x, f) ↦ absurd (ground arith)
        | inl (j', f) ↦
            let same : j' ≡ j = ground arith in
            record {
              id = id;
              code = code;
              expiry = expiry;
              returned = f ∙ ap (λ x. ok x) same;
              left = ground arith;
            }
      ]

  -- `api_join` that answers with success has let `j` in.
  api_join-Joins :
      (r : Request) (body : Option Json) (s : Mesh M) (j : Joined)
      → (api_join out int_of parse_iso t token key r body s).0 ≡ ok (joined j)
      → Joins j s.auth (api_join out int_of parse_iso t token key r body s).1.auth
  unfolding api_join record_activity
  api_join-Joins r body s j e =
      let P = λ (q : Result Reply Reply × Mesh M). q.0 ≡ ok (joined j) → Joins j s.auth q.1.auth in
      let o = limit_request out t r "auth-join" s in
      let (a, _, _, _, _) = limit_peer-keeps out t "auth-join" _ s in
      continue-cases P _ o (λ x _ f. absurd cc)
        (λ _ _.
          let q = json_body body o.1 in
          let same : q.1.auth ≡ s.auth = ap (λ w. w.auth) (json_body-keeps body o.1) ∙ a in
          continue-cases P _ q (λ x _ f. absurd cc)
            (λ b _.
              let w =
                join_values out int_of parse_iso t token key (text_field (get_field "node_id" b))
                  (text_field (code_in b)) (expiry_of parse_iso (get_field "expires_at" b)) q.1 in
              continue-cases P _ w (λ x _ f. absurd cc)
                (λ j' let_in f.
                  let is_j : j' ≡ j = ground arith in
                  subst (λ u. Joins j u w.1.auth) same
                    (join_values-Joins _ _ _ q.1 j (let_in ∙ ap (λ x. ok x) is_j)))))
        e

node_authorized-ok :
    {M : Type 0} (out : Outside M) (t : Times) (r : Request) (s : Mesh M) (id : String)
    → (verify_token out.crypto t.caller (bearer r) s.auth).0 ≡ ok (some id)
    → str_eq id "" ≡ false
    → (node_authorized out t r s).0 ≡ ok id
unfolding node_authorized
node_authorized-ok out t r s id e ne = ground (arith, e)

-- From when `api_join` has let a node in, whatever else changes but the token store, the list of revoked
-- nodes, the certificates and that the node is active, the node may call the routes of the nodes with
-- its token for a day, as long as its certificate is within its validity: `_node_authorized` takes it
-- for the node that it has joined as. Both stores can be read, the CA's signatures are to check, the
-- token is not empty and no token in the store has its hash, and the node is not on the list of revoked
-- nodes.
pub node_authorized-api_join :
    {M : Type 0} (out : Outside M) (int_of parse_iso : String → Option ℕ) (t later : Times)
    (token key : String) (r r' : Request) (body : Option Json) (s w : Mesh M) (j : Joined)
    (ts : List Token) (gone : List String)
    → ((m : String) → out.crypto.check m (out.crypto.sign m) ≡ true)
    → (api_join out int_of parse_iso t token key r body s).0 ≡ ok (joined j)
    → IsAlike j.node_id (api_join out int_of parse_iso t token key r body s).1.auth w.auth
    → s.auth.tokens ≡ some ts
    → any (has_hash (out.crypto.hash token)) ts ≡ false
    → s.auth.revoked_nodes ≡ some gone
    → mem_text j.node_id gone ≡ false
    → str_eq token "" ≡ false
    → bearer r' ≡ some token
    → later.caller < t.caller + 86400000
    → later.caller < t.caller + s.auth.identity.validity
    → (node_authorized out later r' w).0 ≡ ok j.node_id
unfolding node_authorized
node_authorized-api_join out int_of parse_iso t later token key r r' body s w j ts gone checks e
      alike old fresh listed absent ne bears day valid =
    let l = api_join-Joins out int_of parse_iso t token key r body s j e in
    let (named, valid_id) =
      join-id out.crypto t.caller l.id l.code l.expiry token key s.auth j l.returned in
    let a = (join out.crypto t.caller l.id l.code l.expiry token key s.auth).1 in
    let alike' : IsAlike l.id a w.auth =
      let b = (api_join out int_of parse_iso t token key r body s).1.auth in
      subst (λ x. IsAlike l.id x w.auth) l.left (subst (λ i. IsAlike i b w.auth) named alike) in
    let v : (verify_token out.crypto later.caller (bearer r') w.auth).0 ≡ ok (some l.id) =
      ap (λ x. (verify_token out.crypto later.caller x w.auth).0) bears
      ∙ verify_token-join out.crypto t.caller later.caller l.id l.code l.expiry token key s.auth
          w.auth j ts gone alike' checks l.returned old fresh listed (rw (← named) absent) ne day
          valid in
    node_authorized-ok out later r' w l.id v (is_valid_node_id-not_empty out.crypto l.id valid_id)
    ∙ ap (λ i. ok i) (sym named)
