-- ===== src/AuditScan/Tests.antt =====
-- scripts/audit_identity_scan.py on concrete files.
use hermes_k2_monitor.Prelude.{
  ◌≡◌, refl, String, true, false, [], ◌∷◌, none, some, str_eq, lookup, insert,
}
use hermes_k2_monitor.Json.{Json}
use hermes_k2_monitor.Identity.{verify as verify_cert_of, verify_cert, revoke as revoke_cert}
use hermes_k2_monitor.Vault.{State, Node, active}
use hermes_k2_monitor.Vault.Nodes.{revoke_node as revoke_in_vault}
use hermes_k2_monitor.Vault.Chain.{verify_audit_chain, check_rows, rows, audit_lines}
use hermes_k2_monitor.Vault.Audit.{AuditStatus, audit_status}
use hermes_k2_monitor.Auth.{Crypto, Auth}
use hermes_k2_monitor.Auth.Tokens.{revoke_node}
use hermes_k2_monitor.AuditScan.{
  Report, registered_not_certified, load_jsonl, node_anomalies, ledger_anomalies, store_anomaly,
  file_anomalies, event_counts, unknown, scan,
}
use hermes_k2_monitor.AuditScan.Sound.{Each, IsOwned, IsSettled, scan-ok}
use hermes_k2_monitor.Vault.Revocation.{here}
use hermes_k2_monitor.AuditScan.Flagged.{scan-revoke_node}

abbrev crypto : Crypto
crypto = record {
  hash = λ s. s;
  material = λ id key issued expires. id;
  sign = λ m. m;
  check = str_eq;
  is_key = λ s. true;
  iso = λ n. "t";
  is_alnum_above = λ c. false;
}

abbrev member : Node
member = record {
  status = active;
  joined_at = some "t";
  last_seen = some "t";
  role = "collab";
  ttl = 86400;
}

abbrev members : State
members = record {
  nodes = ("node-1", member) ∷ [];
  tasks = record { of_pending = []; of_processing = []; of_finished = [] };
  messages = [];
  last_sync = none;
  audit_tampered = false;
}

abbrev auth : Auth
auth = record {
  join_codes = some [];
  tokens = some [];
  revoked_nodes = some [];
  identity = record {
    validity = 1000000;
    nodes =
        (
          "node-1",
          record {
            node_id = "node-1";
            public_key = "key";
            issued_at = 0;
            expires_at = 90000;
            revoked = false;
            signature = "node-1";
          },
        )
        ∷ [];
    saved = [];
  };
  vault = record {
    state = members;
    saved = members;
    ledger = [];
    audit = [];
    task_ops = [];
    files = [];
  };
}

abbrev digest : Json → String
digest _ = "d"

abbrev report : AuditStatus → Report
report status = record {
  audit = status;
  ledger_entries = 0;
  audit_entries = 0;
  node_event_counts = [];
  unknown_nodes = [];
  anomalies = [];
  is_ok = true;
}

scan-ok_example :
    (verify_audit_chain digest auth.vault ≡ true)
    × Each (IsOwned crypto 500 auth) (load_jsonl auth.vault.ledger)
    × Each (IsSettled crypto 500 auth) auth.vault.state.nodes
unfolding scan node_anomalies ledger_anomalies store_anomaly file_anomalies event_counts unknown
    verify_cert_of verify_cert lookup verify_audit_chain check_rows rows audit_lines
scan-ok_example =
    scan-ok digest crypto 500 auth (report (audit_status digest auth.vault).0) refl refl

abbrev revoked_auth : Auth
revoked_auth = (revoke_node crypto 400 "node-1" auth).1

abbrev flagged : Report
flagged = record (report (audit_status digest revoked_auth.vault).0) {
  anomalies = registered_not_certified "node-1" ∷ [];
  is_ok = false;
}

scan-revoke_node_example : flagged.is_ok ≡ false
unfolding scan node_anomalies ledger_anomalies store_anomaly file_anomalies event_counts unknown
    verify_cert_of verify_cert lookup verify_audit_chain check_rows rows audit_lines revoke_node
    revoke_in_vault revoke_cert insert
scan-revoke_node_example =
    scan-revoke_node digest (λ j. "") crypto 400 500 "node-1" member auth revoked_auth flagged refl
      refl here refl
