-- ===== src/Trust/Payload/Clean.antt =====
-- collab/trust.py, `validate_payload`: what it says of the keys and texts at any depth.
use hermes_k2_monitor.Prelude.{
  ℕ, ◌≡◌, String, Bool, true, false, List, arith, Bool-cases, inl, inr, some, eq_iff, str_eq,
}
use hermes_k2_monitor.Text.{codes, strip}
use hermes_k2_monitor.Json.{Json, str, arr, obj, Items, nil, cons, Fields, end, field, get_field}
use hermes_k2_monitor.Trust.Payload.{
  is_sensitive, is_email, is_path, is_safe_text, validate_payload, validate_items, validate_fields,
}

-- Where a value stands in another: at the root, in a list, or under a key of a dict.
mutual
  pub data Inside (v : Json) : Json → Type 0 where
    root : Inside v v
    in_arr : {xs : Items} → InItems v xs → Inside v (arr xs)
    in_obj : {fs : Fields} → InFields v fs → Inside v (obj fs)

  pub data InItems (v : Json) : Items → Type 0 where
    first : {x : Json} {xs : Items} → Inside v x → InItems v (cons x xs)
    later : {x : Json} {xs : Items} → InItems v xs → InItems v (cons x xs)

  pub data InFields (v : Json) : Fields → Type 0 where
    value : {k : String} {x : Json} {fs : Fields} → Inside v x → InFields v (field k x fs)
    after : {k : String} {x : Json} {fs : Fields} → InFields v fs → InFields v (field k x fs)

module _ (internal_ip : List ℕ → Bool) (v : Json) where
  mutual
    unfolding validate_payload validate_items validate_fields

    Inside-valid :
        (w : Json)
        → validate_payload internal_ip w ≡ true
        → Inside v w
        → validate_payload internal_ip v ≡ true
    Inside-valid w h root = h
    Inside-valid (arr xs) h (in_arr i) = items-valid xs h i
    Inside-valid (obj fs) h (in_obj i) = fields-valid fs h i

    items-valid :
        (xs : Items)
        → validate_items internal_ip xs ≡ true
        → InItems v xs
        → validate_payload internal_ip v ≡ true
    items-valid nil h i = elim i [ ]
    items-valid (cons x xs) h (first i) = Inside-valid x (ground arith) i
    items-valid (cons x xs) h (later i) = items-valid xs (ground arith) i

    fields-valid :
        (fs : Fields)
        → validate_fields internal_ip fs ≡ true
        → InFields v fs
        → validate_payload internal_ip v ≡ true
    fields-valid end h i = elim i [ ]
    fields-valid (field k x fs) h (value i) = Inside-valid x (ground arith) i
    fields-valid (field k x fs) h (after i) = fields-valid fs (ground arith) i

fields-keys :
    (internal_ip : List ℕ → Bool) (fs : Fields) (k : String) (x : Json)
    → validate_fields internal_ip fs ≡ true
    → get_field k fs ≡ some x
    → is_sensitive k ≡ false
unfolding validate_payload validate_items validate_fields get_field
fields-keys internal_ip end k x h e = cc
fields-keys internal_ip (field j v fs) k x h e = elim (Bool-cases (str_eq j k)) [
  | inl s ↦ let same : j ≡ k = (eq_iff j k).0 s in ground (arith, same)
  | inr s ↦ fields-keys internal_ip fs k x (ground arith) (ground arith)
]

-- In a payload that passes, no dict at any depth has a key that is sensitive.
pub validate_payload-keys :
    (internal_ip : List ℕ → Bool) (payload : Json) (fs : Fields) (k : String) (x : Json)
    → validate_payload internal_ip payload ≡ true
    → Inside (obj fs) payload
    → get_field k fs ≡ some x
    → is_sensitive k ≡ false
unfolding validate_payload validate_items validate_fields
validate_payload-keys internal_ip payload fs k x h i e =
    fields-keys internal_ip fs k x (Inside-valid internal_ip (obj fs) payload h i) e

-- In a payload that passes, no text at any depth is, once stripped, an address of a mailbox, a path of
-- the user's, or an internal network address.
pub validate_payload-texts :
    (internal_ip : List ℕ → Bool) (payload : Json) (s : String)
    → validate_payload internal_ip payload ≡ true
    → Inside (str s) payload
    → let t = strip (codes s) in
      (is_email t ≡ false) × (is_path t ≡ false) × (internal_ip t ≡ false)
unfolding validate_payload validate_items validate_fields is_safe_text
validate_payload-texts internal_ip payload s h i =
    let v = Inside-valid internal_ip (str s) payload h i in
    (ground arith, ground arith, ground arith)
