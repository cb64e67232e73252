-- ===== src/Identity.antt =====
-- collab/identity.py: node certificates. Times are milliseconds. The Ed25519 keys are arguments:
-- `sign` and `check` are those of the mesh CA on the text of `_cert_material`, and `is_key` says
-- whether a text decodes to a public key.
pub mod Certificates
mod Tests
use hermes_k2_monitor.Prelude.{
  ℕ, ◌+◌, String, Bool, true, false, not, ◌&&◌, ◌||◌, List, Option, none, some, ltb, leb, ◌==◌,
  str_eq, if◌then◌else◌, any, Dict, lookup, insert,
}
use hermes_k2_monitor.Text.{codes}
use hermes_k2_monitor.Monad.{Result, ok, raised, Exec}

-- the message of an IdentityError
pub data IdentityError : Type 0 where
  invalid_node_id already_exists invalid_public_key : IdentityError

pub record Cert : Type 0 where
  pub node_id : String
  pub public_key : String
  pub issued_at : ℕ
  pub expires_at : ℕ
  pub revoked : Bool
  pub signature : String

-- `_nodes`, and what nodes.enc holds of it
pub record Identity : Type 0 where
  pub validity : ℕ
  pub nodes : Dict Cert
  pub saved : Dict Cert

abbrev put_cert : String → Cert → Identity → Identity
put_cert id cert i = let d = insert id cert i.nodes in record i { nodes = d; saved = d }

-- a letter or a digit of ASCII, "_" or "-"
abbrev is_id_char : ℕ → Bool
is_id_char c =
    leb b'a' c && leb c b'z'
    || leb b'A' c && leb c b'Z'
    || leb b'0' c && leb c b'9'
    || (c == b'_')
    || (c == b'-')

unfoldable pub is_valid_id : String → Bool
is_valid_id id = not (str_eq id "" || any (λ c. not (is_id_char c)) (codes id))

-- a certificate that is not revoked stands in the way of a new one
abbrev is_taken : Option Cert → Bool
is_taken none = false
is_taken (some c) = not c.revoked

-- `revoke`
unfoldable pub revoke : String → Identity → Bool × Identity
revoke id i = elim (lookup id i.nodes) [
  | none ↦ (false, i)
  | some c ↦ (true, put_cert id (record c { revoked = true }) i)
]

module _ (material : String → String → ℕ → ℕ → String) (sign : String → String)
    (is_key : String → Bool) where
  abbrev pub new_cert : ℕ → String → String → Identity → Cert
  new_cert now id key i = record {
    node_id = id;
    public_key = key;
    issued_at = now;
    expires_at = now + i.validity;
    revoked = false;
    signature = sign (material id key now (now + i.validity));
  }

  -- `issue`, with the given public key or that of a fresh private key
  unfoldable pub issue : ℕ → String → String → Exec IdentityError Identity Cert
  issue now id key i =
      if not (is_valid_id id)
      then (raised invalid_node_id, i)
      else if is_taken (lookup id i.nodes)
      then (raised already_exists, i)
      else if not (is_key key)
      then (raised invalid_public_key, i)
      else (ok (new_cert now id key i), put_cert id (new_cert now id key i) i)

module _ (material : String → String → ℕ → ℕ → String) (check : String → String → Bool)
    (is_key : String → Bool) where
  unfoldable pub verify_cert : ℕ → String → Cert → Bool
  verify_cert now id c =
      if not (str_eq c.node_id id) || c.revoked
      then false
      else if leb c.expires_at now
      then false
      else check (material c.node_id c.public_key c.issued_at c.expires_at) c.signature
        && is_key c.public_key

  -- `verify`; a certificate that is given is taken in place of the one on file
  unfoldable pub verify : ℕ → String → Option Cert → Identity → Bool
  verify now id (some c) i = verify_cert now id c
  verify now id none i = elim (lookup id i.nodes) [ none ↦ false | some c ↦ verify_cert now id c ]
