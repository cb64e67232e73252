-- ===== src/Auth/Codes/Once.antt =====
-- collab/auth.py, `join`: a code is good for one node.
use hermes_k2_monitor.Prelude.{
  ℕ, suc, ◌+◌, ◌≤◌, ◌≡◌, refl, ap, String, Bool, false, not, ◌&&◌, ◌||◌, List, [], ◌∷◌, Option,
  none, some, arith, str_eq, count_if, keep_if, ◌++◌, lookup, is_some, Bool-cases, Option-cases,
  inl, inr,
}
use hermes_k2_monitor.Monad.{Result, ok, raised, Result-cases}
use hermes_k2_monitor.Identity.{Cert, issue}
use hermes_k2_monitor.Auth.State.{Crypto, AuthError, Code, Auth, with_store}
use hermes_k2_monitor.Auth.Codes.{
  Expiry, is_live, new_token, use_up, is_valid_node_id, enter, grant, admit_node, after_search,
  join,
}

-- The code has the hash, and is not used.
abbrev pub is_unused : String → Code → Bool
is_unused h c = not c.used && str_eq c.code_hash h

abbrev pub unused : String → Option (List Code) → ℕ
unused h none = 0
unused h (some cs) = count_if (is_unused h) cs

abbrev pub success : {A : Type 0} → Result AuthError A → ℕ
success (ok _) = 1
success (raised _) = 0

success-le : {A : Type 0} (r : Result AuthError A) → success r ≤ 1
success-le (ok _) = omega arith
success-le (raised _) = omega arith

use_up-unused :
    (now : ℕ) (id h : String) (expiry : Expiry) (cs cs' : List Code)
    → use_up now id h expiry cs ≡ some cs'
    → count_if (is_unused h) cs ≡ suc (count_if (is_unused h) cs')
unfolding use_up
use_up-unused now id h expiry [] cs' e = cc
use_up-unused now id h expiry (c ∷ cs) cs' e = elim (Option-cases (use_up now id h expiry cs)) [
  | inl f ↦ ground arith
  | inr (ds, f) ↦ ground (arith, use_up-unused now id h expiry cs ds f)
]

module _ (k : Crypto) (now : ℕ) (id token : String) where
  enter-codes : (cert : Cert) (a : Auth) → (enter k now id token cert a).1.join_codes ≡ a.join_codes
  enter-codes cert a = ground arith

  grant-codes : (cert : Cert) (a : Auth) → (grant k now id token cert a).1.join_codes ≡ a.join_codes
  grant-codes cert a = elim (Option-cases a.tokens) [
    | inl e ↦ rw e refl
    | inr (ts, e) ↦ rw e (
        enter-codes cert
          (record a { tokens = some (keep_if (is_live now) ts ++ new_token k now id token ∷ []) }))
  ]

  -- A node is admitted only with the code used up; a refusal may come before or after that.
  admit_node-unused :
      (key h : String) (cs cs' : List Code) (a : Auth)
      → a.join_codes ≡ some cs
      → count_if (is_unused h) cs ≡ suc (count_if (is_unused h) cs')
      → let r = admit_node k now id token key cs' a in
        unused h r.1.join_codes + success r.0 ≤ count_if (is_unused h) cs
  admit_node-unused key h cs cs' a e n =
      elim (Bool-cases (is_some (lookup id a.vault.state.nodes))) [
        | inl y ↦ rw (y, e) (omega arith)
        | inr y ↦ elim (Result-cases (issue k.material k.sign k.is_key now id key a.identity).0) [
          | inr (bad, f) ↦ rw (y, f, e) (omega arith)
          | inl (cert, f) ↦
              let i = (issue k.material k.sign k.is_key now id key a.identity).1 in
              let b : Auth = record a { identity = i; join_codes = some cs' } in
              rw (y, f, grant-codes cert b)
                (omega (arith, n, success-le (grant k now id token cert b).0))
        ]
      ]

module _ (k : Crypto) (now : ℕ) (id code : String) (expiry : Expiry) (token key : String)
    (a : Auth) where
  pub join-search :
      (cs : List Code)
      → not (is_valid_node_id k id) || str_eq code "" ≡ false
      → a.join_codes ≡ some cs
      → join k now id code expiry token key a
        ≡ after_search k now id token key (use_up now id (k.hash code) expiry cs) a
  unfolding join
  join-search cs good e =
      rw (join, good)
        (ap
          (λ s.
            with_store s
              (λ ds. after_search k now id token key (use_up now id (k.hash code) expiry ds)) a)
          e)

  -- Whatever a call of `join` does, it needs an unused code with the hash to succeed, and uses it up.
  join-unused :
      let r = join k now id code expiry token key a in
      unused (k.hash code) r.1.join_codes + success r.0 ≤ unused (k.hash code) a.join_codes
  unfolding join
  join-unused = elim (Bool-cases (not (is_valid_node_id k id) || str_eq code "")) [
    | inl bad ↦ rw (join, bad) (omega arith)
    | inr good ↦ elim (Option-cases a.join_codes) [
      | inl e ↦ rw (join, good, e) (omega arith)
      | inr (cs, e) ↦ elim (Option-cases (use_up now id (k.hash code) expiry cs)) [
        | inl f ↦ rw (join-search cs good e, f) (omega arith)
        | inr (cs', f) ↦
            rw (join-search cs good e, f, ap (unused (k.hash code)) e)
              (admit_node-unused k now id token key (k.hash code) cs cs' a e
                (use_up-unused now id (k.hash code) expiry cs cs' f))
      ]
    ]
  ]

-- One call of `join` with a code: all that a caller or the program chooses.
pub record Attempt : Type 0 where
  pub now : ℕ
  pub node_id : String
  pub expiry : Expiry
  pub token : String
  pub key : String

-- The attempts in a row: how many succeed, and the state after them.
pub joins : Crypto → String → List Attempt → Auth → ℕ × Auth
joins k code [] a = (0, a)
joins k code (t ∷ ts) a =
    let r = join k t.now t.node_id code t.expiry t.token t.key a in
    let (n, b) = joins k code ts r.1 in (n + success r.0, b)

-- Attempts to join with one code succeed at most as often as unused invitations of that code are in
-- the store: a single invitation admits a single node, whoever tries and however often.
pub joins-le-unused :
    (k : Crypto) (code : String) (ts : List Attempt) (a : Auth)
    → (joins k code ts a).0 ≤ unused (k.hash code) a.join_codes
unfolding joins
joins-le-unused k code [] a = omega arith
joins-le-unused k code (t ∷ ts) a =
    let r = join k t.now t.node_id code t.expiry t.token t.key a in
    omega (
      arith,
      joins-le-unused k code ts r.1,
      join-unused k t.now t.node_id code t.expiry t.token t.key a,
    )
