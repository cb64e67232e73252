-- ===== src/AuditScan.antt =====
-- scripts/audit_identity_scan.py: `scan`, on a vault and on the `MeshAuth` that is made on it. The clock
-- is read once.
pub mod Sound
pub mod Flagged
mod Tests
use hermes_k2_monitor.Prelude.{
  ℕ, ◌+◌, String, Bool, true, false, not, List, [], ◌∷◌, ◌++◌, Option, none, some, ◌==◌, str_eq,
  if◌then◌else◌, length, map, is_empty, Dict, lookup, insert,
}
use hermes_k2_monitor.Monad.{Result, ok, raised}
use hermes_k2_monitor.Json.{Json, str, obj, Fields, get_field}
use hermes_k2_monitor.Vault.{Line, blank, garbage, row, Node, Vault, is_active}
use hermes_k2_monitor.Vault.Chain.{verify_audit_chain}
use hermes_k2_monitor.Vault.Audit.{AuditStatus, audit_status}
use hermes_k2_monitor.Auth.{Crypto, AuthError, store_unreadable, Auth}
use hermes_k2_monitor.Auth.Tokens.{is_certified, mem_text}

-- A finding of the scan, for its text.
pub data Anomaly : Type 0 where
  chain_invalid : Anomaly
  count_mismatch : ℕ → ℕ → Anomaly
  missing_identity : Option Json → Anomaly
  not_registered revoked_in_ledger not_certified : String → Anomaly
  registered_not_certified not_in_store : String → Anomaly

-- What `scan` returns, the path apart. Its anomalies and unknown nodes are sets that are printed in
-- order.
pub record Report : Type 0 where
  pub audit : AuditStatus
  pub ledger_entries : ℕ
  pub audit_entries : ℕ
  pub node_event_counts : Dict ℕ
  pub unknown_nodes : List String
  pub anomalies : List Anomaly
  pub is_ok : Bool

-- `load_jsonl`: `none` is the row {"_anomaly": …} for a line that holds no object
unfoldable pub load_line : Line → Option Fields
load_line (row (obj f)) = some f
load_line _ = none

abbrev pub load_jsonl : List Line → List (Option Fields)
load_jsonl = map load_line

-- `entry.get(key)`
abbrev pub value_of : String → Option Fields → Option Json
value_of key none = none
value_of key (some f) = get_field key f

-- the "node" of an entry, if it is a text and not empty
unfoldable pub node_in : Option Json → Option String
node_in (some (str n)) = if str_eq n "" then none else some n
node_in _ = none

-- the anomaly about a node that the state holds or does not hold
abbrev pub state_anomaly : String → Option Node → List Anomaly
state_anomaly id none = not_registered id ∷ []
state_anomaly id (some n) = if is_active n.status then [] else revoked_in_ledger id ∷ []

abbrev pub unless : Bool → Anomaly → List Anomaly
unless b x = if b then [] else x ∷ []

-- `node_events[node] += 1`
abbrev count_node : String → Dict ℕ → Dict ℕ
count_node id d = insert id (elim (lookup id d) [ none ↦ 1 | some n ↦ n + 1 ]) d

unfoldable pub event_counts : List (Option Fields) → Dict ℕ → Dict ℕ
event_counts [] d = d
event_counts (r ∷ rs) d =
    event_counts rs (elim (node_in (value_of "node" r)) [ none ↦ d | some id ↦ count_node id d ])

unfoldable pub unknown : Auth → List (Option Fields) → List String
unknown a [] = []
unknown a (r ∷ rs) = elim (node_in (value_of "node" r)) [
  | none ↦ unknown a rs
  | some id ↦ elim (lookup id a.vault.state.nodes) [
    | none ↦ if mem_text id (unknown a rs) then unknown a rs else id ∷ unknown a rs
    | some _ ↦ unknown a rs
  ]
]

-- `node.get("status") == "revoked" and node_id not in auth.revoked_nodes()`; a store that cannot be
-- read raises
unfoldable pub store_anomaly : Auth → String → Node → Result AuthError (List Anomaly)
store_anomaly a id n = if is_active n.status then ok [] else elim a.revoked_nodes [
  | none ↦ raised store_unreadable
  | some gone ↦ ok (unless (mem_text id gone) (not_in_store id))
]

module _ (k : Crypto) (now : ℕ) (a : Auth) where
  -- The first loop, on an entry.
  unfoldable pub entry_anomalies : Option Fields → List Anomaly
  entry_anomalies r = elim (node_in (value_of "node" r)) [
    | none ↦ missing_identity (value_of "id" r) ∷ []
    | some id ↦
        state_anomaly id (lookup id a.vault.state.nodes)
        ++ unless (is_certified k now id a) (not_certified id)
  ]

  unfoldable pub ledger_anomalies : List (Option Fields) → List Anomaly
  ledger_anomalies [] = []
  ledger_anomalies (r ∷ rs) = entry_anomalies r ++ ledger_anomalies rs

  -- The second loop.
  unfoldable pub node_anomalies : Dict Node → Result AuthError (List Anomaly)
  unfolding store_anomaly
  node_anomalies [] = ok []
  node_anomalies ((id, n) ∷ ns) = elim (store_anomaly a id n) [
    | raised e ↦ raised e
    | ok found ↦ elim (node_anomalies ns) [
      | raised e ↦ raised e
      | ok rest ↦
          ok (unless (is_certified k now id a) (registered_not_certified id) ++ (found ++ rest))
    ]
  ]

-- the anomalies of the files as a whole
unfoldable pub file_anomalies : (Json → String) → Auth → List Anomaly
file_anomalies digest a =
    let ls : ℕ = length (load_jsonl a.vault.ledger) in
    let as' : ℕ = length (load_jsonl a.vault.audit) in
    unless (verify_audit_chain digest a.vault) chain_invalid
    ++ unless (ls == as') (count_mismatch ls as')

-- `scan`
unfoldable pub scan : (Json → String) → Crypto → ℕ → Auth → Result AuthError Report
unfolding ledger_anomalies event_counts unknown node_anomalies file_anomalies
scan digest k now a = elim (node_anomalies k now a a.vault.state.nodes) [
  | raised e ↦ raised e
  | ok about_nodes ↦
      let ls = load_jsonl a.vault.ledger in
      let found = file_anomalies digest a ++ (ledger_anomalies k now a ls ++ about_nodes) in
      ok (record {
        audit = (audit_status digest a.vault).0;
        ledger_entries = length ls;
        audit_entries = length (load_jsonl a.vault.audit);
        node_event_counts = event_counts ls [];
        unknown_nodes = unknown a ls;
        anomalies = found;
        is_ok = is_empty found;
      })
]
