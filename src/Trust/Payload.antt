-- ===== src/Trust/Payload.antt =====
-- collab/trust.py: `validate_payload`, which refuses a payload that may hold a secret or an address.
-- `internal_ip` says of a text whether `ipaddress` reads it as a private, loopback or link-local one.
pub mod Clean
use hermes_k2_monitor.Prelude.{
  ℕ, String, Bool, true, false, not, ◌&&◌, ◌||◌, List, [], ◌∷◌, map, leb, ◌==◌, if◌then◌else◌,
  length, any, keep_if,
}
use hermes_k2_monitor.Text.{
  codes, codes_eq, lower_code, starts_with, has_code, contains, strip, is_space,
}
use hermes_k2_monitor.Json.{
  Json, null, bool, num, str, arr, obj, Items, nil, cons, Fields, end, field,
}

abbrev forbidden_key_terms : List String
forbidden_key_terms =
    "api_key" ∷ "apikey" ∷ "secret" ∷ "password" ∷ "private_key" ∷ "env" ∷ "hostname" ∷ "email"
    ∷ "internal_ip" ∷ []

-- the terms that a key may not even contain
abbrev denied_parts : List String
denied_parts = "api_key" ∷ "private_key" ∷ "password" ∷ "secret" ∷ []

-- `str(key).lower().replace("-", "_")`
abbrev key_text : String → List ℕ
key_text k = map (λ c. if c == b'-' then b'_' else c) (map lower_code (codes k))

unfoldable pub is_sensitive : String → Bool
unfolding lower_code
is_sensitive k =
    let t = key_text k in
    any (λ term. codes_eq t (codes term)) forbidden_key_terms
    || any (λ term. contains (codes term) t) denied_parts

-- `EMAIL_RE.match` on a stripped text: one "@", no space, something before it, and after it a dot
-- that is neither the first nor the last character.
abbrev inner_dot : List ℕ → Bool
inner_dot [] = false
inner_dot (c ∷ []) = false
inner_dot (c ∷ d ∷ []) = false
inner_dot (c ∷ d ∷ e ∷ s) = if d == b'.' then true else inner_dot (d ∷ e ∷ s)

abbrev email_domain : List ℕ → Bool
email_domain [] = false
email_domain (c ∷ s) = if c == b'@' then inner_dot s else email_domain s

unfoldable pub is_email : List ℕ → Bool
is_email [] = false
is_email (c ∷ s) =
    not (c == b'@')
    && (length (keep_if (λ d. d == b'@') s) == 1)
    && not (any is_space (c ∷ s))
    && email_domain s

-- a path of the user's, or anything with a backslash or "../"
unfoldable pub is_path : List ℕ → Bool
is_path s =
    starts_with (codes "/") s
    || starts_with (codes "~/") s
    || has_code b'\\' s
    || contains (codes "../") s

module _ (internal_ip : List ℕ → Bool) where
  unfoldable pub is_safe_text : String → Bool
  unfolding is_email is_path
  is_safe_text s = let t = strip (codes s) in not (is_email t || is_path t || internal_ip t)

  -- `validate_payload`: true if it returns, false if it raises TrustError
  unfoldable mutual
    pub validate_payload : Json → Bool
    validate_payload null = true
    validate_payload (bool b) = true
    validate_payload (num n) = true
    validate_payload (str s) = is_safe_text s
    validate_payload (arr xs) = validate_items xs
    validate_payload (obj fs) = validate_fields fs

    pub validate_items : Items → Bool
    validate_items nil = true
    validate_items (cons x xs) = validate_payload x && validate_items xs

    pub validate_fields : Fields → Bool
    validate_fields end = true
    validate_fields (field k v fs) =
        not (is_sensitive k) && (validate_payload v && validate_fields fs)
