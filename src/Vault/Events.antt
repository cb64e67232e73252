-- ===== src/Vault/Events.antt =====
-- collab/vault.py: the append-only ledger, with its audit chain and its effect on the state.
pub mod Clean
pub mod Errors
pub mod Registry
use hermes_k2_monitor.Prelude.{
  ℕ, String, Bool, true, false, not, ◌||◌, List, [], ◌∷◌, ◌++◌, Option, none, some, str_eq, min,
  max, if◌then◌else◌, last_n, keep_if,
}
use hermes_k2_monitor.Monad.{Result, ok, raised, Exec, ◌>>=◌, ◌>>◌, pure, raise, modify}
use hermes_k2_monitor.Json.{Json, str, null, obj, end, field, Fields, get_field, is_obj, truthy}
use hermes_k2_monitor.Vault.Defs.{
  VaultError, audit_chain_tampered, Line, blank, garbage, row, State, Vault, save, set_state,
}
use hermes_k2_monitor.Vault.Nodes.{register_node}
use hermes_k2_monitor.Vault.Chain.{get, link, audit_lines, verify_audit_chain}
use hermes_k2_monitor.Vault.Tasks.{text_of, text_or, upsert_task}

-- `_audit_lines()[-1].get("hash", "")`; the chain is verified before, so the hash is a text
pub last_hash : List Json → String
last_hash [] = ""
last_hash (a ∷ []) = elim (get "hash" a) [ some (str h) ↦ h | _ ↦ "" ]
last_hash (a ∷ b ∷ as') = last_hash (b ∷ as')

-- `entry` of `append_event`
abbrev pub entry_of : String → String → String → String → Fields → String → Fields
entry_of uuid now node op payload sig = field "id" (str uuid) (
    field "ts" (str now) (
      field "node" (str node)
        (field "op" (str op) (field "payload" (obj payload) (field "sig" (str sig) end)))))

-- `audit_entry`
abbrev pub audit_entry : String → String → String → String → String → Json
audit_entry uuid prev_hash entry_hash hash now = obj (
    field "ledger_id" (str uuid) (
      field "prev_hash" (str prev_hash)
        (field "entry_hash" (str entry_hash) (field "hash" (str hash) (field "ts" (str now) end)))))

-- the task of a "task" event: its "task" if that is a dict, else the payload
abbrev pub task_of : Fields → Fields
task_of payload = elim (get_field "task" payload) [ some (obj t) ↦ t | _ ↦ payload ]

abbrev pub has_id : Fields → Bool
has_id t = elim (get_field "id" t) [ none ↦ false | some v ↦ truthy v ]

-- the row of `messages`
abbrev message_of : String → String → String → String → Fields → Json
message_of uuid now node op payload = obj (
    field "id" (str uuid) (
      field "ts" (str now)
        (field "node" (str node) (field "op" (str op) (field "payload" (obj payload) end)))))

-- `messages.append(m)` and `messages[-200:]`
abbrev pub add_message : Json → Vault → Vault
add_message m v =
    set_state (record (v.state) { messages = last_n 200 (v.state.messages ++ m ∷ []) }) v

module _ (digest : Json → String) where
  -- `ensure_audit_clean`
  unfoldable pub ensure_audit_clean : Exec VaultError Vault Unit
  ensure_audit_clean v = if verify_audit_chain digest v then (ok tt, v) else (
    raised audit_chain_tampered,
    save (set_state (record (v.state) { audit_tampered = true }) v),
  )

  -- the two appended lines
  pub write_lines : String → String → Fields → Vault → Vault
  unfolding last_hash
  write_lines uuid now entry v =
      let previous = last_hash (audit_lines v.audit) in
      let entry_hash = digest (obj entry) in
      let hash = digest (link (str uuid) previous entry_hash) in
      record v {
        ledger = v.ledger ++ row (obj entry) ∷ [];
        audit = v.audit ++ row (audit_entry uuid previous entry_hash hash now) ∷ [];
      }

module _ (repr : Json → String) where
  -- the role of a "join" event
  abbrev pub role_of : Option Json → String
  role_of none = "collab"
  role_of (some r) = text_of repr r

  -- a "join" event: it registers the node whose id is a text and not empty
  pub join_as : String → Option Json → Option Json → Exec VaultError Vault Unit
  join_as now role (some (str id)) v =
      if str_eq id "" then (ok tt, v) else register_node now id (role_of role) 0 v
  join_as now role _ v = (ok tt, v)

  -- `_apply_event`, on the fields of the entry
  pub apply_event : String → String → String → String → Fields → Exec VaultError Vault Unit
  unfolding join_as
  apply_event uuid now node op payload v =
      if str_eq op "message" || str_eq op "broadcast"
      then (ok tt, add_message (message_of uuid now node op payload) v)
      else if str_eq op "task"
      then (if has_id (task_of payload)
          then (upsert_task repr now uuid (task_of payload) >> pure tt) v
          else (ok tt, v))
      else if str_eq op "join"
      then join_as now (get_field "role" payload) (get_field "node_id" payload) v
      else (ok tt, v)

-- the end of `append_event`
abbrev pub synced : String → Vault → Vault
synced now v =
    save (set_state (record (v.state) { last_sync = some now; audit_tampered = false }) v)

module _ (digest : Json → String) (repr : Json → String) where
  -- `append_event`; `uuid` is the fresh id of the entry
  pub append_event :
      String → String → String → String → Fields → String → Exec VaultError Vault Fields
  unfolding ensure_audit_clean apply_event write_lines
  append_event uuid now node op payload sig =
      let entry = entry_of uuid now node op payload sig in
      do
        ensure_audit_clean digest
        modify (write_lines digest uuid now entry)
        apply_event repr uuid now node op payload
        modify (synced now)
        pure entry
