-- ===== src/Server/Joining.antt =====
-- server.py, `api_invite` and `api_join`: the owner invites a node, and the node joins.
pub mod Admitted
use hermes_k2_monitor.Prelude.{
  ℕ, String, Bool, true, false, not, ◌||◌, Option, none, some, str_eq, if◌then◌else◌, is_some,
}
use hermes_k2_monitor.Monad.{Result, ok, raised, Exec, ◌>>=◌, ◌>>◌, pure, raise, modify}
use hermes_k2_monitor.Json.{Json, null, bool, num, str, arr, obj, Fields, get_field, truthy}
use hermes_k2_monitor.Trust.{text_field}
use hermes_k2_monitor.Auth.{Crypto, Auth, AuthError, invalid_node_id, invalid_code}
use hermes_k2_monitor.Auth.Codes.{
  Expiry, unsaid, unreadable, said, Joined, use_up, is_valid_node_id, create_invite, join,
}
use hermes_k2_monitor.Server.Gates.{Request}
use hermes_k2_monitor.Server.Mesh.{
  Outside, Mesh, Times, Route, Reply, error, crashed, bad_invite, invited, joined, node_joined,
  collab_node, json_body, iso_time, limit_request, require_owner, broadcast, record_activity,
}

-- `int(v)`, for what `int` makes of a text; `none` if it raises, 0 for a negative number
unfoldable pub int_value : (String → Option ℕ) → Json → Option ℕ
int_value int_of (num n) = some n
int_value int_of (bool b) = some (if b then 1 else 0)
int_value int_of (str s) = int_of s
int_value int_of null = none
int_value int_of (arr _) = none
int_value int_of (obj _) = none

-- `body.get("ttl", 300)`
abbrev pub ttl_of : (String → Option ℕ) → Option Json → Option ℕ
ttl_of int_of none = some 300
ttl_of int_of (some v) = int_value int_of v

-- `body.get("node_id") or fresh`; `none` is a value that is no text
abbrev pub invited_id : String → Option Json → Option String
invited_id fresh none = some fresh
invited_id fresh (some (str s)) = some (if str_eq s "" then fresh else s)
invited_id fresh (some v) = if truthy v then none else some fresh

-- `body.get("conn_code") or body.get("code")`
abbrev pub code_in : Fields → Option Json
code_in b = elim (get_field "conn_code" b) [
  | none ↦ get_field "code" b
  | some v ↦ if truthy v then some v else get_field "code" b
]

-- What `join` reads of "expires_at": `parse_iso` is `_parse_iso` of a text, and `none` is a value that
-- is no text, on which `_parse_iso` raises AttributeError.
abbrev pub expiry_of : (String → Option ℕ) → Option Json → Option Expiry
expiry_of parse_iso none = some unsaid
expiry_of parse_iso (some (str s)) =
    if str_eq s ""
    then some unsaid
    else elim (parse_iso s) [ none ↦ some unreadable | some t ↦ some (said t) ]
expiry_of parse_iso (some v) = if truthy v then none else some unsaid

module _ {M : Type 0} where
  abbrev pub auth_lift : {A : Type 0} → (AuthError → Reply) → Result AuthError A → Route M A
  auth_lift answer (ok a) = pure a
  auth_lift answer (raised x) = raise (answer x)

  -- A call of `mesh_auth`, and the answer for its AuthError.
  unfoldable pub auth_call : {A : Type 0} → (AuthError → Reply) → Exec AuthError Auth A → Route M A
  auth_call answer call s = let (o, a) = call s.auth in auth_lift answer o (record s { auth = a })

-- what `join` comes to for an "expires_at" that is no text: it raises AttributeError at the first code
-- that matches otherwise
abbrev pub would_match : Crypto → ℕ → String → String → Auth → Bool
would_match k now id code a =
    if not (is_valid_node_id k id) || str_eq code "" then false else elim a.join_codes [
      | none ↦ false
      | some cs ↦ is_some (use_up now id (k.hash code) unsaid cs)
    ]

module _ {M : Type 0} (out : Outside M) (int_of parse_iso : String → Option ℕ) (t : Times) where
  -- `create_invite` with the node id of the body
  abbrev pub invite :
      String → Option String → Option ℕ → Exec AuthError Auth (String × ℕ × Option String)
  invite code none ttl a = (raised invalid_node_id, a)
  invite code (some id) ttl a = create_invite out.crypto t.caller code (some id) ttl a

  -- `api_invite`; `fresh` and `code` are the fresh node id and the fresh code
  unfoldable pub api_invite : String → String → Request → Option Json → Route M Reply
  unfolding require_owner json_body auth_call int_value
  api_invite fresh code r body = do
    limit_request out t r "auth-invite"
    require_owner out t r
    b ← json_body body
    i ←
        auth_call bad_invite (
          invite code (invited_id fresh (get_field "node_id" b))
            (ttl_of int_of (get_field "ttl" b)))
    pure (invited i.0 i.1 i.2)

  abbrev refuse_join : AuthError → Reply
  refuse_join _ = error 403 "invalid or expired code"

  -- `mesh_auth.join` of the values of a body, `none` for what is no text; `token` and `key` are the fresh token and public key
  unfoldable pub join_values :
      String → String → Option String → Option String → Option Expiry → Route M Joined
  unfolding auth_call
  join_values token key (some id) (some code) (some expiry) s =
      auth_call refuse_join (join out.crypto t.caller id code expiry token key) s
  join_values token key (some id) (some code) none s = (
    raised (
        if would_match out.crypto t.caller id code s.auth
        then crashed
        else refuse_join invalid_code),
    s,
  )
  join_values token key id code expiry s = (raised (refuse_join invalid_code), s)

  -- the end of `api_join`
  abbrev pub welcome : Joined → Mesh M → Mesh M
  welcome j s =
      record_activity (iso_time out t) (node_joined j.node_id j.certificate.expires_at)
        (broadcast (collab_node j.node_id "active" (iso_time out t)) s)

  -- `api_join`
  unfoldable pub api_join : String → String → Request → Option Json → Route M Reply
  unfolding json_body join_values record_activity
  api_join token key r body = do
    limit_request out t r "auth-join"
    b ← json_body body
    j ←
        join_values token key (text_field (get_field "node_id" b)) (text_field (code_in b))
          (expiry_of parse_iso (get_field "expires_at" b))
    modify (welcome j)
    pure (joined j)
