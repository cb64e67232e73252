-- ===== src/Trust/Replay.antt =====
-- collab/trust.py: an envelope that `verify` has accepted is not accepted again.
use hermes_k2_monitor.Prelude.{
  ℕ, suc, ◌+◌, ◌*◌, ◌≤◌, ◌<◌, ◌≡◌, refl, ap, ◌∙◌, ◌⊎◌, String, Bool, true, false, List, [], ◌∷◌,
  Option, none, some, arith, leb, str_eq, if◌then◌else◌, length, any, keep_if, Dict, lookup, insert,
  Bool-cases, Option-cases, inl, inr,
}
use hermes_k2_monitor.Monad.{Result, ok, raised}
use hermes_k2_monitor.Json.{Json, null, bool, num, arr, str, obj, Fields, get_field}
use hermes_k2_monitor.Text.{codes}
use hermes_k2_monitor.Trust.Payload.{validate_payload}
use hermes_k2_monitor.Trust.{
  Stamp, at, Manager, Verdict, verified, TypeError, is_stale, is_kept, save_nonces, remember_nonce,
  timestamp_seconds, signing_material, judge, verify, text_field, parts_of, with_node, op_of,
  node_of, allowed_ops, unhashable,
}

-- A nonce is spent from an instant on: it is on file with its stamp, or its stamp is long past.
abbrev pub IsSpent : String → ℕ → ℕ → Manager → Type 0
IsSpent k t now m = (lookup k m.nonces ≡ some (at t)) ⊎ (t + 4 * m.replay_window < now)

module _ (keep : (String × Stamp) → Bool) (k : String) (a : Stamp) where
  lookup-keep_if :
      (d : Dict Stamp)
      → ((j : String) → str_eq j k ≡ true → keep (j, a) ≡ true)
      → lookup k d ≡ some a
      → lookup k (keep_if keep d) ≡ some a
  unfolding lookup
  lookup-keep_if [] h e = e
  lookup-keep_if ((j, b) ∷ d) h e = elim (Bool-cases (str_eq j k)) [
    | inl s ↦ ground (arith, h j s)
    | inr s ↦ ground (arith, lookup-keep_if d h)
  ]

length-keep_if-le :
    (keep : (String × Stamp) → Bool) (d : Dict Stamp) → length (keep_if keep d) ≤ length d
length-keep_if-le keep [] = omega arith
length-keep_if-le keep (p ∷ d) = ground (arith, length-keep_if-le keep d)

pub length-insert-le :
    (k : String) (a : Stamp) (d : Dict Stamp) → length (insert k a d) ≤ suc (length d)
unfolding insert
length-insert-le k a [] = omega arith
length-insert-le k a ((j, b) ∷ d) = ground (arith, length-insert-le k a d)

abbrev pub is_verified : Verdict → Bool
is_verified verified = true
is_verified _ = false

-- The outcome of `verify` is True.
abbrev pub accepts : Result TypeError (Verdict × Option String) → Bool
accepts (ok (v, _)) = is_verified v
accepts (raised _) = false

abbrev pub passes : Result TypeError Verdict → Bool
passes (ok v) = is_verified v
passes (raised _) = false

accepts-with_node :
    (node : String) (v : Result TypeError Verdict) → accepts (with_node node v) ≡ passes v
accepts-with_node node (ok v) = refl
accepts-with_node node (raised e) = refl

-- Below the limit `_save_nonces` drops what is long past, and nothing else.
pub save_nonces-IsSpent :
    (k : String) (t now : ℕ) (m : Manager)
    → length m.nonces ≤ m.nonce_limit
    → lookup k m.nonces ≡ some (at t)
    → IsSpent k t now (save_nonces now m)
unfolding save_nonces
save_nonces-IsSpent k t now m fits e =
    let kept = keep_if (λ p. is_kept m.replay_window now p.1) m.nonces in
    let short : length kept ≤ length m.nonces =
      length-keep_if-le (λ p. is_kept m.replay_window now p.1) m.nonces in
    elim (Bool-cases (is_kept m.replay_window now (at t))) [
      | inl y ↦ inl (
          ground (
            arith,
            lookup-keep_if (λ p. is_kept m.replay_window now p.1) k (at t) m.nonces (λ j s. y) e,
          ))
      | inr n ↦ inr (unfold is_kept in ground arith)
    ]

pub replay_window-save_nonces :
    (now : ℕ) (m : Manager) → (save_nonces now m).replay_window ≡ m.replay_window
unfolding save_nonces
replay_window-save_nonces now m = refl

module _ (float_of : String → Option Stamp) (text_of : Json → String) (canonical : Json → String)
    (hmac : String → String) (internal_ip : List ℕ → Bool) where
  -- What an accepted message was: its nonce was not on file, its stamp was not stale, and the nonce
  -- is now on file.
  pub record Accepted (now later : ℕ) (nonce : String) (ts : Option Json) (m m' : Manager)
      : Type 0 where
    pub stamp : Stamp
    pub read : timestamp_seconds float_of text_of canonical hmac internal_ip ts ≡ some stamp
    pub current : is_stale m.replay_window now stamp ≡ false
    pub new : lookup nonce m.nonces ≡ none
    pub saved : m' ≡ save_nonces later (record m { nonces = insert nonce stamp m.nonces })

  judge-cases :
      (now later : ℕ) (node op : String) (payload : Fields) (nonce sig : String) (ts : Option Json)
      (m : Manager)
      → let r =
          judge float_of text_of canonical hmac internal_ip now later node op payload nonce sig ts
            m in
        ((passes r.0 ≡ false) × (r.1 ≡ m))
        ⊎ ((passes r.0 ≡ true) × Accepted now later nonce ts m r.1)
  unfolding judge remember_nonce timestamp_seconds
  judge-cases now later node op payload nonce sig none m = inl (refl, refl)
  judge-cases now later node op payload nonce sig (some raw) m =
      elim (Option-cases
        (timestamp_seconds float_of text_of canonical hmac internal_ip (some raw))) [
          | inl e ↦ inl (rw (judge, e) (refl, refl))
          | inr (t, e) ↦ elim (Bool-cases (is_stale m.replay_window now t)) [
            | inl f ↦ inl (rw (judge, e, f) (refl, refl))
            | inr f ↦ elim (Bool-cases (validate_payload internal_ip (obj payload))) [
              | inr v ↦ inl (rw (judge, e, f, v) (refl, refl))
              | inl v ↦ elim (Bool-cases (any (leb 128) (codes sig))) [
                | inl b ↦ inl (rw (judge, e, f, v, b) (refl, refl))
                | inr b ↦
                    elim (Bool-cases (
                      str_eq
                        (hmac (
                          signing_material float_of text_of canonical hmac internal_ip node op
                            (obj payload) nonce raw))
                        sig)) [
                          | inr g ↦ inl (rw (judge, e, f, v, b, g) (refl, refl))
                          | inl g ↦ elim (Option-cases (lookup nonce m.nonces)) [
                            | inr (_, l) ↦
                                inl (rw (judge, e, f, v, b, g, remember_nonce, l) (refl, refl))
                            | inl l ↦ inr (
                                rw (judge, e, f, v, b, g, remember_nonce, l)
                                  (
                                    refl,
                                    record {
                                      stamp = t;
                                      read = e;
                                      current = f;
                                      new = l;
                                      saved = refl;
                                    },
                                  ))
                          ]
                        ]
              ]
            ]
          ]
        ]

text_field-eq : (o : Option Json) (s : String) → text_field o ≡ some s → o ≡ some (str s)
text_field-eq none s e = cc
text_field-eq (some null) s e = cc
text_field-eq (some (bool _)) s e = cc
text_field-eq (some (num _)) s e = cc
text_field-eq (some (str _)) s e = cc
text_field-eq (some (arr _)) s e = cc
text_field-eq (some (obj _)) s e = cc

parts_of-nonce :
    (fs : Fields) (p : Fields) (n s : String)
    → parts_of fs ≡ some (p, (n, s))
    → get_field "nonce" fs ≡ some (str n)
unfolding parts_of
parts_of-nonce fs p n s e = ground (arith, text_field-eq (get_field "nonce" fs) n)

op_of-cases :
    (o : Option Json)
    → (op_of o ≡ raised unhashable)
      ⊎ ((op_of o ≡ ok none) ⊎ ((op : String) × (op_of o ≡ ok (some op))))
unfolding op_of
op_of-cases none = inr (inl refl)
op_of-cases (some null) = inr (inl refl)
op_of-cases (some (bool _)) = inr (inl refl)
op_of-cases (some (num _)) = inr (inl refl)
op_of-cases (some (arr _)) = inl refl
op_of-cases (some (obj _)) = inl refl
op_of-cases (some (str s)) = elim (Bool-cases (any (str_eq s) allowed_ops)) [
  | inl e ↦ inr (inr (s, ap (λ b. ok (if b then some s else none)) e))
  | inr e ↦ inr (inl (ap (λ b. ok (if b then some s else none)) e))
]

module _ (float_of : String → Option Stamp) (text_of : Json → String) (canonical : Json → String)
    (hmac : String → String) (internal_ip : List ℕ → Bool) (now later : ℕ)
    (expected : Option String) (fs : Fields) (m : Manager) where
  pub verify-cases :
      let r = verify float_of text_of canonical hmac internal_ip now later expected (obj fs) m in
      ((accepts r.0 ≡ false) × (r.1 ≡ m))
      ⊎ ((accepts r.0 ≡ true)
          × (nonce : String) × (get_field "nonce" fs ≡ some (str nonce))
          × Accepted float_of text_of canonical hmac internal_ip now later nonce
              (get_field "ts" fs)
              m
              r.1)
  unfolding verify
  verify-cases = elim (Option-cases (node_of expected (get_field "node_id" fs))) [
    | inl e ↦ inl (rw (verify, e) (refl, refl))
    | inr (node, e) ↦ elim (op_of-cases (get_field "op" fs)) [
      | inl f ↦ inl (rw (verify, e, f) (refl, refl))
      | inr (inl f) ↦ inl (rw (verify, e, f) (refl, refl))
      | inr (inr (op, f)) ↦ elim (Option-cases (parts_of fs)) [
        | inl g ↦ inl (rw (verify, e, f, g) (refl, refl))
        | inr ((p, (n, s)), g) ↦
            elim (judge-cases float_of text_of canonical hmac internal_ip now later node op p n s
              (get_field "ts" fs) m) [
                | inl (a, b) ↦ inl (rw (verify, e, f, g) (accepts-with_node node _ ∙ a, b))
                | inr (a, b) ↦ inr (
                    rw (verify, e, f, g)
                      (accepts-with_node node _ ∙ a, n, parts_of-nonce fs p n s g, b))
              ]
      ]
    ]
  ]
