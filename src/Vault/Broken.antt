-- ===== src/Vault/Broken.antt =====
-- collab/vault.py: a ledger that does not verify never verifies again by the vault's own methods.
use hermes_k2_monitor.Prelude.{
  ◌≡◌, ap, ap₂, ◌∙◌, String, true, false, [], ◌∷◌, ◌++◌, some, none, arith, length-append,
  if◌then◌else◌, Bool-cases, inl, inr,
}
use hermes_k2_monitor.Monad.{raised}
use hermes_k2_monitor.Json.{Json, obj, Fields}
use hermes_k2_monitor.Vault.Defs.{audit_chain_tampered, row, Vault, save, set_state}
use hermes_k2_monitor.Vault.Lines.{is_one_line}
use hermes_k2_monitor.Vault.Nodes.{register_node, touch_node, mark_revoked, revoke_node}
use hermes_k2_monitor.Vault.Tasks.Files.{ledger-upsert_task, audit-upsert_task}
use hermes_k2_monitor.Vault.Chain.{split_rows, audit_lines, verify_audit_chain}
use hermes_k2_monitor.Vault.Chain.Clean.{IsClean, audit_lines-eq}
use hermes_k2_monitor.Vault.Chain.Rows.{split_rows-append}
use hermes_k2_monitor.Vault.Revocation.{
  Step, registered, touched, marked, revoked_by, upserted, appended, Reach, here, next,
}
use hermes_k2_monitor.Vault.Events.{entry_of, append_event}
use hermes_k2_monitor.Vault.Events.Clean.{append_event-Checked}
use hermes_k2_monitor.Vault.Events.Errors.{append_event-tampered}

module _ (digest repr : Json → String) where
  verify-same :
      (v w : Vault)
      → w.ledger ≡ v.ledger
      → w.audit ≡ v.audit
      → verify_audit_chain digest w ≡ verify_audit_chain digest v
  unfolding verify_audit_chain
  verify-same v w e f =
      ap₂ (λ ls as'. verify_audit_chain digest (record v { ledger = ls; audit = as' })) e f

  Step-broken :
      {v w : Vault}
      → Step digest repr v w
      → verify_audit_chain digest v ≡ false
      → verify_audit_chain digest w ≡ false
  unfolding register_node touch_node mark_revoked revoke_node
  Step-broken (registered now id role ttl v) b =
      verify-same v (register_node now id role ttl v).1 (ground arith) (ground arith) ∙ b
  Step-broken (touched now id v) b =
      verify-same v (touch_node now id v) (ground arith) (ground arith) ∙ b
  Step-broken (marked now id v) b =
      verify-same v (mark_revoked now id v) (ground arith) (ground arith) ∙ b
  Step-broken (revoked_by now id v) b =
      verify-same v (revoke_node now id v).1 (ground arith) (ground arith) ∙ b
  Step-broken (upserted now uuid task v) b =
      verify-same v _ (ledger-upsert_task repr now uuid task v)
        (audit-upsert_task repr now uuid task v)
      ∙ b
  Step-broken (appended uuid now node op payload sig v) b =
      let e = append_event-tampered digest repr uuid now node op payload sig v b in
      verify-same v _ (ap (λ o. o.1.ledger) e) (ap (λ o. o.1.audit) e) ∙ b

  Reach-broken :
      {v w : Vault}
      → Reach digest repr v w
      → verify_audit_chain digest v ≡ false
      → verify_audit_chain digest w ≡ false
  Reach-broken here b = b
  Reach-broken (next p s) b = Step-broken s (Reach-broken p b)

  -- Every event is refused, and changes nothing but the mark.
  refused :
      (uuid now node op : String) (payload : Fields) (sig : String) (v w : Vault)
      → Reach digest repr v w
      → verify_audit_chain digest v ≡ false
      → append_event digest repr uuid now node op payload sig w ≡ (
        raised audit_chain_tampered,
        save (set_state (record (w.state) { audit_tampered = true }) w),
      )
  refused uuid now node op payload sig v w p b =
      append_event-tampered digest repr uuid now node op payload sig w (Reach-broken p b)

-- One event with a text that has one of the characters U+0085, U+2028 and U+2029 is the last one: once
-- `append_event` has been called with it on clean files, every later event is refused, whatever calls
-- of the methods on nodes, tasks and events come between.
pub append_event-last :
    (digest repr : Json → String) (uuid now node op : String) (payload : Fields) (sig : String)
    (uuid' now' node' op' : String) (payload' : Fields) (sig' : String) (v w : Vault)
    → IsClean digest v
    → is_one_line (obj (entry_of uuid now node op payload sig)) ≡ false
    → Reach digest repr (append_event digest repr uuid now node op payload sig v).1 w
    → append_event digest repr uuid' now' node' op' payload' sig' w ≡ (
      raised audit_chain_tampered,
      save (set_state (record (w.state) { audit_tampered = true }) w),
    )
append_event-last digest repr uuid now node op payload sig uuid' now' node' op' payload' sig' v w
      clean lines p =
    let e = (append_event-Checked digest repr uuid now node op payload sig v clean).2 in
    refused digest repr uuid' now' node' op' payload' sig' _ w p (e ∙ lines)

verify-torn :
    (digest : Json → String) (l : Json) (v u : Vault)
    → IsClean digest v
    → u.ledger ≡ v.ledger ++ row l ∷ []
    → u.audit ≡ v.audit
    → verify_audit_chain digest u ≡ false
unfolding verify_audit_chain
verify-torn digest l v u c el ea =
    let a : audit_lines u.audit ≡ c.as' = ap audit_lines ea ∙ audit_lines-eq digest v c in
    let r : split_rows u.ledger ≡ (if is_one_line l then some (c.ls ++ l ∷ []) else none) =
      ap split_rows el ∙ split_rows-append v.ledger c.ls l c.ledger_rows in
    elim (Bool-cases (is_one_line l)) [
      | inr n ↦ ground (arith, r, a)
      | inl y ↦ ground (arith, r, a, c.lengths, length-append c.ls (l ∷ []))
    ]

-- A crash of `append_event` between its two writes, which leaves a ledger row without its audit row,
-- has every later event refused, after a restart too: `u` is the vault that is loaded from the files,
-- with any state.
pub torn_lem :
    (digest repr : Json → String) (l : Json) (uuid now node op : String) (payload : Fields)
    (sig : String) (v u w : Vault)
    → IsClean digest v
    → u.ledger ≡ v.ledger ++ row l ∷ []
    → u.audit ≡ v.audit
    → Reach digest repr u w
    → append_event digest repr uuid now node op payload sig w ≡ (
      raised audit_chain_tampered,
      save (set_state (record (w.state) { audit_tampered = true }) w),
    )
torn_lem digest repr l uuid now node op payload sig v u w c el ea p =
    refused digest repr uuid now node op payload sig u w p (verify-torn digest l v u c el ea)
