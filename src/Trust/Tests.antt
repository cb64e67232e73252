-- ===== src/Trust/Tests.antt =====
-- collab/trust.py on concrete envelopes, after tests/test_collab_core.py.
use hermes_k2_monitor.Prelude.{
  ℕ, ◌≡◌, refl, String, Bool, true, false, List, [], ◌∷◌, Option, none, some, arith, lookup, insert,
  str_eq, if◌then◌else◌,
}
use hermes_k2_monitor.Text.{lower_code, codes}
use hermes_k2_monitor.Json.{Json, str, num, arr, obj, nil, cons, Fields, end, field, get_field}
use hermes_k2_monitor.Trust.{
  Stamp, nan, Manager, verify, timestamp_seconds, signing_material, is_stale, is_kept, save_nonces,
  remember_nonce, judge, parts_of, node_of, op_of,
}
use hermes_k2_monitor.Trust.Payload.{
  validate_payload, validate_items, validate_fields, is_sensitive, is_safe_text, is_email, is_path,
}
use hermes_k2_monitor.Trust.Payload.Clean.{
  Inside, root, in_arr, in_obj, first, later, value, validate_payload-keys,
}
use hermes_k2_monitor.Trust.Once.{
  Call, called_with, restart, called, accepted, run, not_accepted_twice,
}

-- Only "nan" is read as a float; the digest is the material itself.
abbrev float_of : String → Option Stamp
float_of s = if str_eq s "nan" then some nan else none

abbrev text_of : Json → String
text_of (str s) = s
text_of _ = "1000"

abbrev canonical : Json → String
canonical _ = "{}"

abbrev hmac : String → String
hmac s = s

abbrev internal_ip : List ℕ → Bool
internal_ip _ = false

abbrev envelope : String → String → Json → Fields
envelope nonce sig ts = field "node_id" (str "n1") (
    field "op" (str "message") (
      field "payload" (obj (field "text" (str "hello") end))
        (field "nonce" (str nonce) (field "ts" ts (field "sig" (str sig) end)))))

abbrev manager : Manager
manager = record { replay_window = 30000; nonce_limit = 3; nonces = [] }

abbrev call : ℕ → Fields → Call
call now m = record { now = now; later = now; expected = some "n1"; message = m }

abbrev one : Fields
one = envelope "a" "n1|message|{}|a|1000" (num 1000)

abbrev two : Fields
two = envelope "b" "n1|message|{}|b|1000" (num 1000)

abbrev no_number : Fields
no_number = envelope "c" "n1|message|{}|c|nan" (str "nan")

-- An envelope whose "ts" is the text "nan" is never stale, and its nonce is not kept: it is accepted
-- as often as it comes.
nan_replayed :
    (accepted float_of text_of canonical hmac internal_ip (call 1000 no_number) manager ≡ true)
    × ((called float_of text_of canonical hmac internal_ip (call 1000 no_number) manager).nonces
        ≡ [])
unfolding verify judge parts_of node_of op_of timestamp_seconds signing_material is_stale is_kept
    save_nonces remember_nonce validate_payload validate_items validate_fields is_sensitive
    is_safe_text is_email is_path lower_code get_field lookup insert
nan_replayed = (refl, refl)

not_accepted_twice_example :
    accepted float_of text_of canonical hmac internal_ip (call 3000 one) (
      run float_of text_of canonical hmac internal_ip
        (called_with (call 2000 two) ∷ restart ∷ [])
        (called float_of text_of canonical hmac internal_ip (call 1500 one) manager))
    ≡ false
unfolding verify judge parts_of node_of op_of timestamp_seconds signing_material is_stale is_kept
    save_nonces remember_nonce validate_payload validate_items validate_fields is_sensitive
    is_safe_text is_email is_path lower_code get_field lookup insert
not_accepted_twice_example =
    not_accepted_twice float_of text_of canonical hmac internal_ip (call 1500 one) (call 3000 one)
      1000 (called_with (call 2000 two) ∷ restart ∷ []) manager refl refl (omega arith)
      (omega arith, omega arith, omega arith, tt) refl (omega arith)

abbrev inner : Fields
inner = field "text" (str "hello") end

abbrev nested : Json
nested = obj (field "task" (arr (cons (num 1) (cons (obj inner) nil))) end)

inner-Inside : Inside (obj inner) nested
inner-Inside = in_obj (value (in_arr (later (first root))))

validate_payload-keys_example : is_sensitive "text" ≡ false
unfolding validate_payload validate_items validate_fields is_sensitive is_safe_text is_email is_path
    lower_code get_field
validate_payload-keys_example =
    validate_payload-keys internal_ip nested inner "text" (str "hello") refl inner-Inside refl

mailbox_refused : is_email (codes "someone@example.org") ≡ true
unfolding is_email
mailbox_refused = refl
