-- ===== src/Server/Tasks.antt =====
-- server.py, `api_collab_task`: a node creates, claims or completes a shared task.
pub mod Entry
use hermes_k2_monitor.Prelude.{
  ℕ, String, Bool, true, false, ◌||◌, List, [], ◌∷◌, ◌++◌, Option, none, some, str_eq,
  if◌then◌else◌,
}
use hermes_k2_monitor.Monad.{Result, ok, raised, Exec, ◌>>=◌, ◌>>◌, pure, raise, modify}
use hermes_k2_monitor.Json.{
  Json, null, bool, num, str, arr, obj, Fields, end, field, get_field, set_field,
}
use hermes_k2_monitor.Vault.{VaultError, Vault}
use hermes_k2_monitor.Vault.Tasks.{upsert_task}
use hermes_k2_monitor.Vault.Events.{ensure_audit_clean}
use hermes_k2_monitor.Relay.{ready}
use hermes_k2_monitor.Server.Gates.{Request}
use hermes_k2_monitor.Server.Forward.{http_forward}
use hermes_k2_monitor.Server.Mesh.{
  Outside, Mesh, Times, Route, Reply, error, crashed, unavailable, bad_task, task_saved, json_body,
  iso_time, node_authorized, limit_peer, verify_body, vault_call,
}
use hermes_k2_monitor.Server.Relaying.{Event, take_event, append, announce}

-- `{key: value for key, value in payload.items() if key != "action"}`
unfoldable pub without_action : Fields → Fields
without_action end = end
without_action (field k v fs) =
    let rest = without_action fs in if str_eq k "action" then rest else field k v rest

-- `payload.get("action", "create")`
abbrev pub action_of : Fields → Json
action_of payload = elim (get_field "action" payload) [ none ↦ str "create" | some a ↦ a ]

-- `payload.get("task")` if that is a dict, else the rest of the payload
abbrev pub task_in : Fields → Fields
task_in payload = elim (get_field "task" payload) [ some (obj t) ↦ t | _ ↦ without_action payload ]

-- What the action sets in the task; `none` is the TypeError of `in` on a set for a list or a dict.
unfoldable pub act : String → Json → Fields → Option Fields
act node (str a) t = some (
    if str_eq a "claim"
    then set_field "claimed_by" (str node) (set_field "status" (str "processing") t)
    else if str_eq a "complete" || str_eq a "done"
    then set_field "completed_by" (str node) (set_field "status" (str "done") t)
    else t)
act node (arr _) t = none
act node (obj _) t = none
act node _ t = some t

-- the payload of the event that is filed
abbrev pub task_event : Json → Fields → Fields
task_event action saved = field "action" action (field "task" (obj saved) end)

module _ {M : Type 0} where
  -- the 403 for another operation
  unfoldable pub require_op : String → Event → Route M Unit
  require_op op e = if str_eq e.op op then pure tt else raise (error 403 "operation not allowed")

  unfoldable pub take_task : String → Fields → Route M Fields
  take_task node payload = elim (act node (action_of payload) (task_in payload)) [
    | none ↦ raise crashed
    | some t ↦ pure t
  ]

module _ {M : Type 0} (out : Outside M) (t : Times) where
  -- `if relay_client.ready(): relay_client.forward(...)`, whose exceptions are dropped
  abbrev forward_ready : Fields → Mesh M → Mesh M
  forward_ready payload s =
      if ready s.hub.relay
      then record s {
        hub = record (s.hub) {
          relay = http_forward out.io out.sign out.running "task" payload s.hub.relay;
        };
      }
      else s

  -- The end of `api_collab_task`, once the task and the entry are stored.
  unfoldable pub publish_task : Json → Fields → Fields → Route M Reply
  unfolding announce
  publish_task action saved entry s = (
    ok (task_saved saved (get_field "id" entry)),
    forward_ready (task_event action saved) (announce out t entry s),
  )

  -- The middle of `api_collab_task`, for a task event of a node that is verified. `uuid` is the fresh id
  -- of the entry, `task_uuid` that of the task if it has none.
  unfoldable pub file_task : String → String → String → Event → Route M Reply
  unfolding require_op take_task vault_call append publish_task
  file_task uuid task_uuid node e = do
    require_op "task" e
    task ← take_task node e.payload
    vault_call unavailable (ensure_audit_clean out.digest)
    saved ← vault_call bad_task (upsert_task out.text_of (iso_time out t) task_uuid task)
    entry ←
        append out t uuid node
          (record { op = "task"; payload = task_event (action_of e.payload) saved; sig = e.sig })
    publish_task (action_of e.payload) saved entry

  -- `api_collab_task`
  unfoldable pub api_collab_task : String → String → Request → Option Json → Route M Reply
  unfolding node_authorized limit_peer json_body verify_body take_event file_task
  api_collab_task uuid task_uuid r body = do
    node ← node_authorized out t r
    limit_peer out t "task" node
    b ← json_body body
    verify_body out t node b
    e ← take_event crashed b
    file_task uuid task_uuid node e
