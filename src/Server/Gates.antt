-- ===== src/Server/Gates.antt =====
-- server.py: who may call a route, `_bearer` to `_write_allowed`.
pub mod Credentials
use hermes_k2_monitor.Prelude.{
  ℕ, String, Bool, true, false, not, ◌||◌, List, Option, none, some, str_eq, if◌then◌else◌, map,
  any,
}
use hermes_k2_monitor.Text.{
  codes, lower_code, starts_with, drop_text, strip_text, or_text, DigestError, compare_digest,
  before_comma,
}
use hermes_k2_monitor.Monad.{Result, ok, raised}
use hermes_k2_monitor.Auth.Tokens.{verify_owner}

-- What the gates read of a request: headers, the query's "token" and "wt", and the peer's address.
pub record Request : Type 0 where
  pub authorization : Option String
  pub x_mesh_token : Option String
  pub x_collab_owner : Option String
  pub x_view_token : Option String
  pub x_write_token : Option String
  pub x_forwarded_for : Option String
  pub query_token : Option String
  pub query_wt : Option String
  pub remote : Option String

-- K2_VIEW_TOKEN, K2_WRITE_TOKEN, K2_TRUST_XFF, and the owner token
pub record Gate : Type 0 where
  pub view_token : String
  pub write_token : String
  pub trust_xff : Bool
  pub owner_token : String

abbrev pub text_of : Option String → String
text_of none = ""
text_of (some s) = s

-- `_bearer`
unfoldable pub bearer : Request → Option String
bearer r =
    let value = text_of r.authorization in
    if starts_with (codes "bearer ") (map lower_code (codes value))
    then some (strip_text (drop_text 7 value))
    else r.x_mesh_token

-- `_owner_authorized`
unfoldable pub owner_authorized : Gate → Request → Result DigestError Bool
owner_authorized g r = verify_owner g.owner_token (or_text r.x_collab_owner (bearer r))

-- the first part of X-Forwarded-For, if it is there and not empty
abbrev pub forwarded : Request → Option String
forwarded r = or_text (some (strip_text (before_comma (text_of r.x_forwarded_for)))) none

abbrev pub or_unknown : Option String → String
or_unknown none = "unknown"
or_unknown (some s) = if str_eq s "" then "unknown" else s

abbrev pub first_of : Option String → String → String
first_of none s = s
first_of (some f) s = f

-- `_client_ip`
unfoldable pub client_ip : Gate → Request → String
client_ip g r =
    if g.trust_xff then first_of (forwarded r) (or_unknown r.remote) else or_unknown r.remote

-- what a viewer supplies
unfoldable pub view_supplied : Request → Option String
view_supplied r = or_text r.x_view_token (or_text r.query_token (bearer r))

-- `_view_authorized`
unfoldable pub view_authorized : Gate → Request → Result DigestError Bool
view_authorized g r =
    if str_eq g.view_token ""
    then ok false
    else compare_digest (text_of (view_supplied r)) g.view_token

-- `_loopback_only`
unfoldable pub loopback_only : Request → Bool
loopback_only r =
    let peer = text_of r.remote in
    str_eq peer "127.0.0.1"
    || str_eq peer "::1"
    || str_eq peer "localhost"
    || starts_with (codes "127.") (codes peer)

-- `_view_allowed`
unfoldable pub view_allowed : Gate → Request → Result DigestError Bool
view_allowed g r = elim (view_authorized g r) [
  | raised e ↦ raised e
  | ok true ↦ ok true
  | ok false ↦ if str_eq g.view_token "" then ok (loopback_only r) else ok false
]

-- what the caller of a writing route supplies
unfoldable pub write_supplied : Request → Option String
write_supplied r = or_text r.x_write_token (or_text (bearer r) r.query_wt)

-- `supplied and secrets.compare_digest(str(supplied), WRITE_TOKEN)`
abbrev pub is_write_token : Gate → Option String → Result DigestError Bool
is_write_token g none = ok false
is_write_token g (some s) = if str_eq s "" then ok false else compare_digest s g.write_token

-- `_write_allowed`
unfoldable pub write_allowed : Gate → Request → Result DigestError Bool
write_allowed g r =
    if str_eq g.write_token ""
    then owner_authorized g r
    else elim (is_write_token g (write_supplied r)) [
      | raised e ↦ raised e
      | ok true ↦ ok true
      | ok false ↦ owner_authorized g r
    ]
