-- ===== src/Vault/Tasks.antt =====
-- collab/vault.py: `upsert_task`. A task is the dict that a client sent.
pub mod Files
pub mod Board
use hermes_k2_monitor.Prelude.{
  ℕ, String, Bool, true, false, not, List, [], ◌∷◌, ◌++◌, Option, none, some, str_eq, if◌then◌else◌,
  keep_if, last_n, Dict, insert, erase,
}
use hermes_k2_monitor.Monad.{Result, ok, raised, Exec}
use hermes_k2_monitor.Text.{lower_is}
use hermes_k2_monitor.Json.{Json, str, null, Fields, get_field, set_field, is_text, truthy}
use hermes_k2_monitor.Vault.Defs.{
  VaultError, invalid_task_status, TaskStatus, pending, processing, finished, Buckets, bucket,
  set_bucket, State, TaskOp, wrote, unlinked, Vault, save, set_state,
}

abbrev pub status_name : TaskStatus → String
status_name pending = "pending"
status_name processing = "processing"
status_name finished = "done"

-- The status that a text names, once it is lower case and "working" is read as "processing".
unfoldable pub parse_status : String → Option TaskStatus
parse_status s =
    if lower_is s "working"
    then some processing
    else if lower_is s "pending"
    then some pending
    else if lower_is s "processing"
    then some processing
    else if lower_is s "done"
    then some finished
    else none

-- `x.get("id") != task_id`
abbrev pub other_task : String → Fields → Bool
other_task id x = not (is_text id (get_field "id" x))

abbrev pub without : String → Buckets (List Fields) → Buckets (List Fields)
without id b = record {
  of_pending = keep_if (other_task id) b.of_pending;
  of_processing = keep_if (other_task id) b.of_processing;
  of_finished = keep_if (other_task id) b.of_finished;
}

-- the file that is written, and then those of the other statuses that are unlinked
abbrev pub write_task : TaskStatus → String → Fields → List TaskOp
write_task pending id t = wrote pending id t ∷ unlinked processing id ∷ unlinked finished id ∷ []
write_task processing id t = wrote processing id t ∷ unlinked pending id ∷ unlinked finished id ∷ []
write_task finished id t = wrote finished id t ∷ unlinked pending id ∷ unlinked processing id ∷ []

-- `self._state["tasks"]` after the task has been moved to its bucket
abbrev pub file_under : TaskStatus → String → Fields → Buckets (List Fields) → Buckets (List Fields)
file_under s id t b =
    let rest = without id b in set_bucket s (last_n 200 (bucket s rest ++ t ∷ [])) rest

-- `repr` is `str(v)` of a value that is no text.
module _ (repr : Json → String) where
  abbrev pub text_of : Json → String
  text_of (str s) = s
  text_of v = repr v

  -- `str(v or default)`, for what `get` returns
  abbrev pub text_or : String → Option Json → String
  text_or default none = default
  text_or default (some v) = if truthy v then text_of v else default

  abbrev set_default : String → Json → Fields → Fields
  set_default k v t = elim (get_field k t) [ none ↦ set_field k v t | some _ ↦ t ]

  -- The task that is stored: its id, its status, and "updated_at" if it has none.
  pub stored : String → String → TaskStatus → Fields → Fields
  stored now id s t =
      set_default "updated_at" (str now)
        (set_field "status" (str (status_name s)) (set_field "id" (str id) t))

  -- `upsert_task`
  pub upsert_task : String → String → Fields → Exec VaultError Vault Fields
  unfolding stored
  upsert_task now uuid task v =
      let id = text_or uuid (get_field "id" task) in
      elim (parse_status (text_or "pending" (get_field "status" task))) [
        | none ↦ (raised invalid_task_status, v)
        | some s ↦
            let t = stored now id s task in
            (
              ok t,
              save (record v {
                state = record (v.state) { tasks = file_under s id t v.state.tasks };
                task_ops = v.task_ops ++ write_task s id t;
              }),
            )
      ]
