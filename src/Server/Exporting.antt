-- ===== src/Server/Exporting.antt =====
-- server.py, `api_collab_export`: a task of the local queue goes to the shared board.
pub mod Entry
use hermes_k2_monitor.Prelude.{
  ℕ, String, Bool, true, false, ◌||◌, List, [], ◌∷◌, ◌++◌, Option, none, some, str_eq,
  if◌then◌else◌,
}
use hermes_k2_monitor.Text.{strip_text}
use hermes_k2_monitor.Monad.{Result, ok, raised, Exec, ◌>>=◌, ◌>>◌, pure, raise}
use hermes_k2_monitor.Json.{Json, str, arr, obj, Fields, end, field, get_field, truthy}
use hermes_k2_monitor.Vault.{Buckets, VaultError}
use hermes_k2_monitor.Vault.Tasks.{upsert_task, text_of as task_text}
use hermes_k2_monitor.Vault.Events.{ensure_audit_clean}
use hermes_k2_monitor.Relay.{Client, Error, ready, forward}
use hermes_k2_monitor.Server.Gates.{Request}
use hermes_k2_monitor.Server.Mesh.{
  Outside, Mesh, Times, Route, Reply, error, crashed, unavailable, task_saved, json_body, iso_time,
  limit_request, vault_call,
}
use hermes_k2_monitor.Server.Relaying.{Event, append, announce}
use hermes_k2_monitor.Server.Tasks.{task_event}
use hermes_k2_monitor.Server.Adopting.{require_write}
use hermes_k2_monitor.Server.LocalTasks.{File, LocalTask, scan_tasks}

-- `str(body.get("task_id") or "").strip()`
abbrev pub wanted : (Json → String) → Option Json → String
wanted text_of none = ""
wanted text_of (some v) = if truthy v then strip_text (task_text text_of v) else ""

-- the first task with the id, `str(task.get("id")) == task_id`
unfoldable pub find_local : (Json → String) → String → List LocalTask → Option LocalTask
find_local text_of id [] = none
find_local text_of id (x ∷ xs) =
    let rest = find_local text_of id xs in
    if str_eq (task_text text_of x.id) id then some x else rest

-- the search of `api_collab_export` for the value of "task_id"
unfoldable pub local_task : (Json → String) → Buckets (List File) → Option Json → Option LocalTask
unfolding scan_tasks find_local
local_task text_of files v =
    let tasks = scan_tasks files in
    find_local text_of (wanted text_of v)
      (tasks.of_pending ++ (tasks.of_processing ++ tasks.of_finished))

-- The status on the board; `none` is the TypeError of `in` on a set for a list or a dict.
abbrev pub board_status : Json → Option String
board_status (str s) = some (
    if str_eq s "working" || str_eq s "processing"
    then "processing"
    else if str_eq s "done"
    then "done"
    else "pending")
board_status (arr _) = none
board_status (obj _) = none
board_status _ = some "pending"

-- `source`, as it is handed to the vault
abbrev pub exported : LocalTask → String → Fields
exported x status = field "id" x.id (
    field "title" x.title (
      field "assigned_to" x.assigned_to
        (field "status" (str status) (field "exported_from" (str "hermes-internal") end))))

-- the local task with the status that it gets, and the 404
unfoldable pub take_source : {M : Type 0} → Option LocalTask → Route M Fields
take_source none s = (raised (error 404 "internal task not found"), s)
take_source (some x) s = elim (board_status x.status) [
  | none ↦ (raised crashed, s)
  | some status ↦ (ok (exported x status), s)
]

-- what `relay_client.forward` raises leaves the handler
unfoldable pub after_forward : {M : Type 0} → Result Error Bool → Reply → Route M Reply
after_forward (ok _) answer s = (ok answer, s)
after_forward (raised e) answer s = (raised crashed, s)

module _ {M : Type 0} (out : Outside M) (t : Times) where
  -- The end of `api_collab_export`.
  unfoldable pub publish_export : Fields → Fields → Route M Reply
  unfolding announce after_forward
  publish_export saved entry s =
      let s' = announce out t entry s in
      let answer = task_saved saved (get_field "id" entry) in
      if ready s'.hub.relay
      then (let (o, c) =
            forward out.io out.sign out.running "task" (task_event (str "export") saved)
              s'.hub.relay in
          after_forward o answer (record s' { hub = record (s'.hub) { relay = c } }))
      else (ok answer, s')

  -- The middle of `api_collab_export`: the task is stored and filed in the name of this server.
  unfoldable pub file_export : String → String → Fields → Route M Reply
  unfolding vault_call append publish_export
  file_export uuid task_uuid source s =
      (do
        vault_call unavailable (ensure_audit_clean out.digest)
        saved ← vault_call unavailable (upsert_task out.text_of (iso_time out t) task_uuid source)
        entry ← append out t uuid s.hub.relay.local_node_id (record {
          op = "task";
          payload = task_event (str "export") saved;
          sig = "local-export";
        })
        publish_export saved entry)
        s

  -- `api_collab_export`; `files` is what `scan_tasks` finds in the directories of the local queue
  unfoldable pub api_collab_export :
      String → String → Buckets (List File) → Request → Option Json → Route M Reply
  unfolding require_write json_body local_task take_source file_export
  api_collab_export uuid task_uuid files r body = do
    require_write out t r
    limit_request out t r "collab-export"
    b ← json_body body
    source ← take_source (local_task out.text_of files (get_field "task_id" b))
    file_export uuid task_uuid source
