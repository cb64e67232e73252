-- ===== src/Trust.antt =====
-- collab/trust.py: signed envelopes, and the nonces that keep them from being replayed. Times are
-- milliseconds.
pub mod Payload
pub mod Nonces
pub mod Replay
pub mod Once
pub mod Sign
pub mod Signer
mod Tests
use hermes_k2_monitor.Prelude.{
  ℕ, zero, suc, ◌+◌, ◌*◌, ◌-◌, ◌^◌, String, Bool, true, false, not, ◌&&◌, ◌||◌, List, [], ◌∷◌,
  Option, none, some, ltb, leb, is_some, str_eq, if◌then◌else◌, length, any, keep_if, Dict, lookup,
  insert,
}
use Prim.Native.String.{◌++◌ as append_text}
use hermes_k2_monitor.Monad.{Result, ok, raised, Exec}
use hermes_k2_monitor.Json.{Json, str, num, arr, obj, Fields, get_field}
use hermes_k2_monitor.Text.{codes}
use hermes_k2_monitor.Trust.Payload.{validate_payload}

-- A time as a float: an instant since 1970, one before it, one beyond all (inf), or no number.
pub data Stamp : Type 0 where
  at : ℕ → Stamp
  past future nan : Stamp

pub record Manager : Type 0 where
  pub replay_window : ℕ
  pub nonce_limit : ℕ
  pub nonces : Dict Stamp

pub data Verdict : Type 0 where
  verified invalid_message invalid_node not_allowed invalid_fields : Verdict
  stale invalid_signature replayed : Verdict

-- The TypeError of `op not in ALLOWED_OPS` for an op that is a list or a dict, and that of
-- `compare_digest` for a signature with a character that is not ASCII. `verify` catches neither.
pub data TypeError : Type 0 where
  unhashable non_ascii : TypeError

-- ALLOWED_OPS
abbrev pub allowed_ops : List String
allowed_ops = "message" ∷ "task" ∷ "file_update" ∷ "broadcast" ∷ "join" ∷ []

-- `abs(time.time() - ts) > self.replay_window`
unfoldable pub is_stale : ℕ → ℕ → Stamp → Bool
is_stale window now (at t) = ltb (t + window) now || ltb (now + window) t
is_stale window now past = true
is_stale window now future = true
is_stale window now nan = false

-- `now - ts <= self.replay_window * 4`
unfoldable pub is_kept : ℕ → ℕ → Stamp → Bool
is_kept window now (at t) = leb now (t + 4 * window)
is_kept window now past = false
is_kept window now future = true
is_kept window now nan = false

-- `a < b` for the stamps that are kept
abbrev earlier : Stamp → Stamp → Bool
earlier (at a) (at b) = ltb a b
earlier (at a) future = true
earlier _ _ = false

-- `sorted(…, key=lambda item: item[1], reverse=True)`, which keeps the order of equal entries
insert_newest : (String × Stamp) → Dict Stamp → Dict Stamp
insert_newest (k, a) [] = (k, a) ∷ []
insert_newest (k, a) ((j, b) ∷ d) =
    let rest = insert_newest (k, a) d in if earlier a b then (j, b) ∷ rest else (k, a) ∷ (j, b) ∷ d

newest_first : Dict Stamp → Dict Stamp
unfolding insert_newest
newest_first [] = []
newest_first (p ∷ d) = insert_newest p (newest_first d)

abbrev take {ℓ} : {A : Type ℓ} → ℕ → List A → List A
take zero xs = []
take (suc n) [] = []
take (suc n) (x ∷ xs) = x ∷ take n xs

-- `_save_nonces`
unfoldable pub save_nonces : ℕ → Manager → Manager
unfolding newest_first
save_nonces now m =
    let kept = keep_if (λ p. is_kept m.replay_window now p.1) m.nonces in
    record m {
      nonces =
          if ltb m.nonce_limit (length kept) then take m.nonce_limit (newest_first kept) else kept;
    }

-- `_remember_nonce`
unfoldable pub remember_nonce : ℕ → String → Stamp → Manager → Bool × Manager
remember_nonce now nonce ts m =
    if is_some (lookup nonce m.nonces)
    then (false, m)
    else (true, save_nonces now (record m { nonces = insert nonce ts m.nonces }))

-- `not isinstance(node_id, str) or not node_id or expected_node_id and node_id != expected_node_id`
-- is false for this text
unfoldable pub node_of : Option String → Option Json → Option String
node_of none (some (str n)) = if str_eq n "" then none else some n
node_of (some e) (some (str n)) =
    if str_eq n "" || not (str_eq e "") && not (str_eq n e) then none else some n
node_of _ _ = none

-- `op in ALLOWED_OPS`: the operation, `none` if it is not one
unfoldable pub op_of : Option Json → Result TypeError (Option String)
op_of (some (arr _)) = raised unhashable
op_of (some (obj _)) = raised unhashable
op_of (some (str op)) = ok (if any (str_eq op) allowed_ops then some op else none)
op_of _ = ok none

abbrev pub text_field : Option Json → Option String
text_field (some (str s)) = some s
text_field _ = none

abbrev pub dict_field : Option Json → Option Fields
dict_field (some (obj p)) = some p
dict_field _ = none

-- the "payload", "nonce" and "sig", if they have the right types
unfoldable pub parts_of : Fields → Option (Fields × (String × String))
parts_of m = elim (dict_field (get_field "payload" m)) [
  | none ↦ none
  | some p ↦ elim (text_field (get_field "nonce" m)) [
    | none ↦ none
    | some n ↦ elim (text_field (get_field "sig" m)) [
      | none ↦ none
      | some s ↦ if str_eq n "" then none else some (p, (n, s))
    ]
  ]
]

-- the node id that `verify` returns beside its verdict
abbrev pub with_node :
    String → Result TypeError Verdict → Result TypeError (Verdict × Option String)
with_node node (ok v) = ok (v, some node)
with_node node (raised e) = raised e

-- `float_of` reads a text as `datetime.fromisoformat` or else `float` does, `none` if neither does;
-- `text_of` is `str`, `canonical` is `canonical_json`, and `hmac` the hex digest under the mesh key.
module _ (float_of : String → Option Stamp) (text_of : Json → String) (canonical : Json → String)
    (hmac : String → String) (internal_ip : List ℕ → Bool) where
  -- `timestamp_seconds`; `none` is the TrustError, or the OverflowError of an int that is too large
  unfoldable pub timestamp_seconds : Option Json → Option Stamp
  timestamp_seconds (some (num t)) = if ltb t (1000 * 2 ^ 1024) then some (at t) else none
  timestamp_seconds (some (str s)) = float_of s
  timestamp_seconds _ = none

  -- `f"{node_id}|{op}|{canonical_json(payload)}|{nonce}|{ts}"`
  unfoldable pub signing_material : String → String → Json → String → Json → String
  signing_material node op payload nonce ts = append_text node (
      append_text "|" (
        append_text op (
          append_text "|" (
            append_text (canonical payload)
              (append_text "|" (append_text nonce (append_text "|" (text_of ts))))))))

  -- The rest of `verify`, for a message whose fields have the right types.
  unfoldable pub judge :
      ℕ
      → ℕ
      → String
      → String
      → Fields
      → String
      → String
      → Option Json
      → Exec TypeError Manager Verdict
  judge now later node op payload nonce sig ts m = elim (timestamp_seconds ts) [
    | none ↦ (ok invalid_message, m)
    | some t ↦
        if is_stale m.replay_window now t
        then (ok stale, m)
        else if not (validate_payload internal_ip (obj payload))
        then (ok invalid_message, m)
        else elim ts [
          | none ↦ (ok invalid_message, m)
          | some raw ↦
              if any (leb 128) (codes sig)
              then (raised non_ascii, m)
              else if not (str_eq (hmac (signing_material node op (obj payload) nonce raw)) sig)
              then (ok invalid_signature, m)
              else let (fresh, m') = remember_nonce later nonce t m in
                if fresh then (ok verified, m') else (ok replayed, m)
        ]
  ]

  -- `verify`; `now` and `later` are what the clock says in `verify` and in `_save_nonces`
  pub verify : ℕ → ℕ → Option String → Json → Exec TypeError Manager (Verdict × Option String)
  unfolding judge parts_of node_of op_of
  verify now later expected (obj msg) m = elim (node_of expected (get_field "node_id" msg)) [
    | none ↦ (ok (invalid_node, none), m)
    | some node ↦ elim (op_of (get_field "op" msg)) [
      | raised e ↦ (raised e, m)
      | ok none ↦ (ok (not_allowed, some node), m)
      | ok (some op) ↦ elim (parts_of msg) [
        | none ↦ (ok (invalid_fields, some node), m)
        | some (payload, (nonce, sig)) ↦
            let (v, m') = judge now later node op payload nonce sig (get_field "ts" msg) m in
            (with_node node v, m')
      ]
    ]
  ]
  verify now later expected _ m = (ok (invalid_message, none), m)
