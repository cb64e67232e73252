-- ===== src/Trust/Signer.antt =====
-- collab/trust.py, `verify`: the node id that it returns beside its verdict.
use hermes_k2_monitor.Prelude.{
  ℕ, ◌≡◌, ◌≢◌, String, Bool, List, Option, none, some, arith, eq_iff, Option-cases, inl, inr,
}
use hermes_k2_monitor.Monad.{ok, Result-cases}
use hermes_k2_monitor.Json.{Json, str, num, arr, obj, null, bool, Fields, get_field}
use hermes_k2_monitor.Trust.{Stamp, Manager, Verdict, verify, node_of, op_of, parts_of, judge}

node_of-eq :
    (expected : String) (v : Option Json) (node : String)
    → expected ≢ ""
    → node_of (some expected) v ≡ some node
    → node ≡ expected
unfolding node_of
node_of-eq expected (some (str n)) node ne e =
    ground (arith, eq_iff n expected, eq_iff expected "", ne)
node_of-eq expected none node ne e = absurd (ground arith)
node_of-eq expected (some null) node ne e = absurd (ground arith)
node_of-eq expected (some (bool _)) node ne e = absurd (ground arith)
node_of-eq expected (some (num _)) node ne e = absurd (ground arith)
node_of-eq expected (some (arr _)) node ne e = absurd (ground arith)
node_of-eq expected (some (obj _)) node ne e = absurd (ground arith)

-- A message that is verified for a caller is that caller's own.
module _ (float_of : String → Option Stamp) (text_of canonical : Json → String)
    (hmac : String → String) (internal_ip : List ℕ → Bool) where
  pub verify-signer :
      (now later : ℕ) (expected signed : String) (msg : Fields) (v : Verdict) (m : Manager)
      → expected ≢ ""
      → (verify float_of text_of canonical hmac internal_ip now later (some expected) (obj msg) m).0
        ≡ ok (v, some signed)
      → signed ≡ expected
  unfolding verify
  verify-signer now later expected signed msg v m ne e =
      elim (Option-cases (node_of (some expected) (get_field "node_id" msg))) [
        | inl f ↦ absurd (ground arith)
        | inr (node, f) ↦
            let g = node_of-eq expected (get_field "node_id" msg) node ne f in
            elim (Result-cases (op_of (get_field "op" msg))) [
              | inr (x, o) ↦ absurd (ground arith)
              | inl (none, o) ↦ ground (arith, g)
              | inl (some op, o) ↦ elim (Option-cases (parts_of msg)) [
                | inl p ↦ ground (arith, g)
                | inr ((payload, (nonce, sig)), p) ↦
                    elim (Result-cases
                      (judge float_of text_of canonical hmac internal_ip now later node op payload
                        nonce sig (get_field "ts" msg) m).0) [
                          | inr (x, j) ↦ absurd (ground arith)
                          | inl (w, j) ↦ ground (arith, g)
                        ]
              ]
            ]
      ]
