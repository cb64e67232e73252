-- ===== src/Server/Reading.antt =====
-- server.py, `api_collab_ledger`: a node reads the end of the ledger with a signed query.
pub mod Answered
use hermes_k2_monitor.Prelude.{ℕ, String, Option, none, some, min, max, str_eq, if◌then◌else◌}
use hermes_k2_monitor.Monad.{Result, ok, raised, Exec, ◌>>=◌, ◌>>◌}
use hermes_k2_monitor.Json.{Json, str, num, obj, Fields, end, field}
use hermes_k2_monitor.Trust.{verify}
use hermes_k2_monitor.Vault.Audit.{read_ledger}
use hermes_k2_monitor.Server.Gates.{Request}
use hermes_k2_monitor.Server.Mesh.{
  Outside, Mesh, Times, Route, Reply, error, ledger_read, node_authorized, limit_peer, judged,
  after_state,
}

-- The query's parameters, `none` for one that is not given.
pub record Query : Type 0 where
  pub limit : Option String
  pub nonce : Option String
  pub ts : Option String
  pub sig : Option String

-- The limit, for what `int` makes of a text: `none` if it raises, 0 for a negative number.
abbrev pub limit_of : (String → Option ℕ) → Option String → ℕ
limit_of int_of none = 100
limit_of int_of (some s) = elim (int_of s) [ none ↦ 100 | some n ↦ max 1 (min n 500) ]

-- a parameter that is not empty
abbrev pub given : Option String → Option String
given none = none
given (some s) = if str_eq s "" then none else some s

-- The message that the node has signed.
abbrev pub read_message : String → ℕ → String → String → String → Fields
read_message node limit nonce ts sig = field "node_id" (str node) (
    field "op" (str "broadcast") (
      field "payload" (obj (field "action" (str "ledger_read") (field "limit" (num limit) end)))
        (field "nonce" (str nonce) (field "ts" (str ts) (field "sig" (str sig) end)))))

-- The message of a query, `none` if a parameter is missing or empty.
unfoldable pub message_of : String → ℕ → Query → Option Fields
message_of node limit q = elim (given q.nonce) [
  | none ↦ none
  | some nonce ↦ elim (given q.ts) [
    | none ↦ none
    | some ts ↦ elim (given q.sig) [
      | none ↦ none
      | some sig ↦ some (read_message node limit nonce ts sig)
    ]
  ]
]

module _ {M : Type 0} where
  -- `signed`, or the 403 for want of a parameter
  unfoldable pub signed_query : String → ℕ → Query → Route M Fields
  signed_query node limit q s = elim (message_of node limit q) [
    | none ↦ (raised (error 403 "signed request required"), s)
    | some m ↦ (ok m, s)
  ]

module _ {M : Type 0} (out : Outside M) (t : Times) where
  -- `mesh_trust.verify(signed, expected_node_id=node_id)`, with its 403 and the activity "ledger_read"
  unfoldable pub verify_query : String → Fields → Route M String
  unfolding judged
  verify_query node signed s =
      let (o, m) =
        verify out.float_of out.text_of out.canonical out.hmac out.internal_ip t.envelope t.nonces
          (some node) (obj signed) s.trust in
      judged out t node (field "op" (str "ledger_read") end) o (record s { trust = m })

  -- The answer; `_collab_status` checks the audit chain on the way.
  abbrev pub read_end : ℕ → Route M Reply
  read_end limit s = (ok (ledger_read (read_ledger limit s.auth.vault)), after_state out t s)

  -- `api_collab_ledger`
  unfoldable pub api_collab_ledger : (String → Option ℕ) → Request → Query → Route M Reply
  unfolding node_authorized limit_peer signed_query verify_query
  api_collab_ledger int_of r q = do
    node ← node_authorized out t r
    limit_peer out t "ledger" node
    signed ← signed_query node (limit_of int_of q.limit) q
    verify_query node signed
    read_end (limit_of int_of q.limit)
