-- ===== src/Vault/Tasks/Files.antt =====
-- collab/vault.py: what `upsert_task` leaves alone.
use hermes_k2_monitor.Prelude.{◌≡◌, String, none, arith}
use hermes_k2_monitor.Monad.{raised}
use hermes_k2_monitor.Json.{Json, Fields, get_field}
use hermes_k2_monitor.Vault.Defs.{invalid_task_status, Vault}
use hermes_k2_monitor.Vault.Tasks.{text_or, parse_status, upsert_task}

module _ (repr : Json → String) (now uuid : String) (t : Fields) (v : Vault) where
  pub ledger-upsert_task : (upsert_task repr now uuid t v).1.ledger ≡ v.ledger
  unfolding upsert_task
  ledger-upsert_task = ground arith

  pub files-upsert_task : (upsert_task repr now uuid t v).1.files ≡ v.files
  unfolding upsert_task
  files-upsert_task = ground arith

  pub audit-upsert_task : (upsert_task repr now uuid t v).1.audit ≡ v.audit
  unfolding upsert_task
  audit-upsert_task = ground arith

  pub nodes-upsert_task : (upsert_task repr now uuid t v).1.state.nodes ≡ v.state.nodes
  unfolding upsert_task
  nodes-upsert_task = ground arith

  pub upsert_task-invalid :
      parse_status (text_or repr "pending" (get_field "status" t)) ≡ none
      → upsert_task repr now uuid t v ≡ (raised invalid_task_status, v)
  unfolding upsert_task
  upsert_task-invalid bad = rw (upsert_task, bad)
