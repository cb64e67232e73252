-- ===== src/Auth/State.antt =====
-- collab/auth.py: the attributes of `MeshAuth` and its encrypted stores. Times are milliseconds, and a
-- call reads the clock once. A store is `none` if its file cannot be decrypted or read.
use hermes_k2_monitor.Prelude.{ℕ, String, Bool, List, Option, none, some}
use hermes_k2_monitor.Monad.{raised, Exec}
use hermes_k2_monitor.Identity.{Identity, IdentityError}
use hermes_k2_monitor.Vault.{VaultError, Vault}

-- What the module takes from hashlib, from Ed25519, from datetime and from `str.isalnum`.
pub record Crypto : Type 0 where
  pub hash : String → String
  pub material : String → String → ℕ → ℕ → String
  pub sign : String → String
  pub check : String → String → Bool
  pub is_key : String → Bool
  pub iso : ℕ → String
  pub is_alnum_above : ℕ → Bool

-- An AuthError by its message; a store that cannot be read is an AuthStoreError.
pub data AuthError : Type 0 where
  invalid_node_id invalid_ttl ttl_range invalid_code already_registered store_unreadable : AuthError
  identity_error : IdentityError → AuthError
  vault_error : VaultError → AuthError

-- An entry of join_codes.enc.
pub record Code : Type 0 where
  pub code_hash : String
  pub node_id : Option String
  pub expires_at : ℕ
  pub used : Bool

-- An entry of tokens.enc.
pub record Token : Type 0 where
  pub node_id : String
  pub token_hash : String
  pub issued_at : ℕ
  pub expires_at : ℕ
  pub revoked : Bool

-- `MeshAuth`, with the certificates and the vault that it works on
pub record Auth : Type 0 where
  pub join_codes : Option (List Code)
  pub tokens : Option (List Token)
  pub revoked_nodes : Option (List String)
  pub identity : Identity
  pub vault : Vault

-- What follows a read of a store, `_read_store`, from what is read.
abbrev pub with_store :
    {A B : Type 0} → Option (List A) → (List A → Exec AuthError Auth B) → Exec AuthError Auth B
with_store none f a = (raised store_unreadable, a)
with_store (some xs) f a = f xs a
