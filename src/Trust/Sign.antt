-- ===== src/Trust/Sign.antt =====
-- collab/trust.py: `sign`, and what `verify` makes of its envelope.
use hermes_k2_monitor.Prelude.{
  ℕ, ◌≡◌, refl, String, Bool, true, false, not, List, Option, none, some, arith, leb, str_eq,
  eq_refl, if◌then◌else◌, any, lookup, Bool-cases, inl, inr,
}
use hermes_k2_monitor.Text.{codes}
use hermes_k2_monitor.Monad.{Result, ok, raised}
use hermes_k2_monitor.Json.{Json, str, obj, Fields, end, field, get_field}
use hermes_k2_monitor.Trust.Payload.{validate_payload}
use hermes_k2_monitor.Trust.{
  Stamp, Manager, verified, allowed_ops, is_stale, remember_nonce, node_of, op_of, parts_of,
  timestamp_seconds, signing_material, judge, verify,
}

-- the TrustError of `sign`, by its message
pub data SignError : Type 0 where
  operation_not_allowed payload_denied : SignError

-- the dict that `sign` returns
abbrev pub envelope : String → String → Fields → String → Json → String → Fields
envelope node op payload nonce ts sig = field "node_id" (str node) (
    field "op" (str op) (
      field "payload" (obj payload)
        (field "nonce" (str nonce) (field "ts" ts (field "sig" (str sig) end)))))

module _ (float_of : String → Option Stamp) (text_of : Json → String) (canonical : Json → String)
    (hmac : String → String) (internal_ip : List ℕ → Bool) where
  -- `sign` of a dict, with the nonce and the time that it uses
  unfoldable pub sign : String → String → Fields → String → Json → Result SignError Fields
  sign node op payload nonce ts =
      if not (any (str_eq op) allowed_ops)
      then raised operation_not_allowed
      else if not (validate_payload internal_ip (obj payload))
      then raised payload_denied
      else ok (
          envelope node op payload nonce ts (
            hmac (
              signing_material float_of text_of canonical hmac internal_ip node op (obj payload)
                nonce ts)))

  -- An envelope whose parts pass every test.
  verify-envelope :
      (node op : String) (payload : Fields) (nonce : String) (ts : Json) (now later : ℕ) (t : Stamp)
      (m : Manager)
      → let sig = hmac (
          signing_material float_of text_of canonical hmac internal_ip node op
            (obj payload)
            nonce
            ts) in
        any (leb 128) (codes sig) ≡ false
        → str_eq node "" ≡ false
        → str_eq nonce "" ≡ false
        → timestamp_seconds float_of text_of canonical hmac internal_ip (some ts) ≡ some t
        → is_stale m.replay_window now t ≡ false
        → lookup nonce m.nonces ≡ none
        → any (str_eq op) allowed_ops ≡ true
        → validate_payload internal_ip (obj payload) ≡ true
        → (verify float_of text_of canonical hmac internal_ip now later none
            (obj (envelope node op payload nonce ts sig))
            m).0
          ≡ ok (verified, some node)
  unfolding verify judge parts_of node_of op_of remember_nonce get_field
  verify-envelope node op payload nonce ts now later t m ascii n1 n2 read fresh new a v =
      let sig = hmac (
        signing_material float_of text_of canonical hmac internal_ip node op (obj payload) nonce
          ts) in
      rw
        (
          verify,
          node_of,
          n1,
          op_of,
          a,
          parts_of,
          n2,
          judge,
          read,
          fresh,
          v,
          ascii,
          eq_refl sig,
          remember_nonce,
          new,
        )
        refl

-- What `sign` returns is verified, by any manager with the same key: if the digests are ASCII texts,
-- neither the node id nor the nonce is empty, the time reads as one within the window, and the nonce
-- is not on file.
pub verify-sign :
    (float_of : String → Option Stamp) (text_of : Json → String) (canonical : Json → String)
    (hmac : String → String) (internal_ip : List ℕ → Bool) (node op : String) (payload : Fields)
    (nonce : String) (ts : Json) (msg : Fields) (now later : ℕ) (t : Stamp) (m : Manager)
    → ((s : String) → any (leb 128) (codes (hmac s)) ≡ false)
    → str_eq node "" ≡ false
    → str_eq nonce "" ≡ false
    → timestamp_seconds float_of text_of canonical hmac internal_ip (some ts) ≡ some t
    → is_stale m.replay_window now t ≡ false
    → lookup nonce m.nonces ≡ none
    → sign float_of text_of canonical hmac internal_ip node op payload nonce ts ≡ ok msg
    → (verify float_of text_of canonical hmac internal_ip now later none (obj msg) m).0
      ≡ ok (verified, some node)
unfolding sign
verify-sign float_of text_of canonical hmac internal_ip node op payload nonce ts msg now later t m
      ascii n1 n2 read fresh new e =
    elim (Bool-cases (any (str_eq op) allowed_ops)) [
      | inr a ↦ absurd (ground arith)
      | inl a ↦ elim (Bool-cases (validate_payload internal_ip (obj payload))) [
        | inr v ↦ absurd (ground arith)
        | inl v ↦
            let sig = hmac (
              signing_material float_of text_of canonical hmac internal_ip node op (obj payload)
                nonce ts) in
            let same : msg ≡ envelope node op payload nonce ts sig = ground arith in
            rw same (
              verify-envelope float_of text_of canonical hmac internal_ip node op payload nonce ts
                now later t m
                (ascii (
                  signing_material float_of text_of canonical hmac internal_ip node op (obj payload)
                    nonce ts))
                n1 n2 read fresh new a v)
      ]
    ]

module _ (float_of : String → Option Stamp) (text_of : Json → String) (canonical : Json → String)
    (hmac : String → String) (internal_ip : List ℕ → Bool) where
  -- What `sign` returns is an envelope with its arguments.
  pub sign-envelope :
      (node op : String) (payload : Fields) (nonce : String) (ts : Json) (msg : Fields)
      → sign float_of text_of canonical hmac internal_ip node op payload nonce ts ≡ ok msg
      → (sig : String) × (msg ≡ envelope node op payload nonce ts sig)
  unfolding sign
  sign-envelope node op payload nonce ts msg e = (
    hmac (
        signing_material float_of text_of canonical hmac internal_ip node op (obj payload) nonce
          ts),
    ground arith,
  )

  -- A message of the node that is expected is judged as if none were.
  pub verify-expected :
      (node op : String) (payload : Fields) (nonce : String) (ts : Json) (sig : String)
      (now later : ℕ) (m : Manager)
      → str_eq node "" ≡ false
      → verify float_of text_of canonical hmac internal_ip now later
          (some node)
          (obj (envelope node op payload nonce ts sig))
          m
        ≡ verify float_of text_of canonical hmac internal_ip now later none
            (obj (envelope node op payload nonce ts sig))
            m
  unfolding verify node_of get_field
  verify-expected node op payload nonce ts sig now later m e =
      rw (verify, node_of, e, eq_refl node) refl
