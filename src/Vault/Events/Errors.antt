-- ===== src/Vault/Events/Errors.antt =====
-- collab/vault.py, `append_event`: what is left behind when it raises.
use hermes_k2_monitor.Prelude.{◌≡◌, ap, ◌∙◌, String, true, false, none, some, arith, str_eq, lookup}
use hermes_k2_monitor.Monad.{raised, continue}
use hermes_k2_monitor.Json.{Json, str, Fields, get_field}
use hermes_k2_monitor.Vault.Defs.{
  audit_chain_tampered, invalid_task_status, node_is_revoked, revoked, Vault, Node, save, set_state,
}
use hermes_k2_monitor.Vault.Chain.{verify_audit_chain}
use hermes_k2_monitor.Vault.Chain.Clean.{IsClean}
use hermes_k2_monitor.Vault.Tasks.{text_or, parse_status}
use hermes_k2_monitor.Vault.Tasks.Files.{upsert_task-invalid}
use hermes_k2_monitor.Vault.Nodes.{register_node}
use hermes_k2_monitor.Vault.Events.{
  entry_of, task_of, has_id, ensure_audit_clean, apply_event, write_lines, append_event,
}
use hermes_k2_monitor.Vault.Events.Clean.{append_event-clean, at_end}

-- On files that do not verify nothing is appended and no event acts: the call raises, and what it
-- writes is the mark "audit_tampered", in memory and in state.json.
pub append_event-tampered :
    (digest repr : Json → String) (uuid now node op : String) (payload : Fields) (sig : String)
    (v : Vault)
    → verify_audit_chain digest v ≡ false
    → append_event digest repr uuid now node op payload sig v ≡ (
      raised audit_chain_tampered,
      save (set_state (record (v.state) { audit_tampered = true }) v),
    )
unfolding append_event ensure_audit_clean
append_event-tampered digest repr uuid now node op payload sig v bad =
    rw (append_event, ensure_audit_clean, bad)

module _ (digest repr : Json → String) (uuid now node : String) (payload : Fields) (sig : String)
    (v : Vault) (clean : IsClean digest v) where
  -- A "task" event whose task has an id and a status that is none raises, with the event in the
  -- ledger and in the audit file all the same: only the state stays as it was, on disk too.
  pub append_event-invalid_task :
      has_id (task_of payload) ≡ true
      → parse_status (text_or repr "pending" (get_field "status" (task_of payload))) ≡ none
      → append_event digest repr uuid now node "task" payload sig v ≡ (
        raised invalid_task_status,
        write_lines digest uuid now (entry_of uuid now node "task" payload sig) v,
      )
  unfolding apply_event
  append_event-invalid_task id bad =
      let w = write_lines digest uuid now (entry_of uuid now node "task" payload sig) v in
      let e : apply_event repr uuid now node "task" payload w ≡ (raised invalid_task_status, w) =
        ground (arith, upsert_task-invalid repr now uuid (task_of payload) w bad) in
      append_event-clean digest repr uuid now node "task" payload sig v clean
      ∙ ap (continue (at_end now (entry_of uuid now node "task" payload sig))) e

  -- A "join" event for a revoked node raises, with the event in both files all the same; beside
  -- those two lines nothing changes, so the node is still revoked.
  pub append_event-revoked_join :
      (id : String) (n : Node)
      → str_eq id "" ≡ false
      → get_field "node_id" payload ≡ some (str id)
      → lookup id v.state.nodes ≡ some n
      → n.status ≡ revoked
      → append_event digest repr uuid now node "join" payload sig v ≡ (
        raised node_is_revoked,
        write_lines digest uuid now (entry_of uuid now node "join" payload sig) v,
      )
  unfolding apply_event register_node write_lines
  append_event-revoked_join id n some_id e l r =
      let w = write_lines digest uuid now (entry_of uuid now node "join" payload sig) v in
      let f : apply_event repr uuid now node "join" payload w ≡ (raised node_is_revoked, w) =
        ground arith in
      append_event-clean digest repr uuid now node "join" payload sig v clean
      ∙ ap (continue (at_end now (entry_of uuid now node "join" payload sig))) f
