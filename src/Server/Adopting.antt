-- ===== src/Server/Adopting.antt =====
-- server.py, `api_collab_adopt`: a shared task goes to the local queue, where the local agent runs it.
pub mod Gated
use Prim.Native.String.{◌++◌ as append_text}
use hermes_k2_monitor.Prelude.{
  ℕ, String, Bool, true, false, List, [], ◌∷◌, ◌++◌, Option, none, some, str_eq, if◌then◌else◌,
  insert,
}
use hermes_k2_monitor.Text.{strip_text}
use hermes_k2_monitor.Monad.{Result, ok, raised, Exec, ◌>>=◌, ◌>>◌, pure, raise, modify}
use hermes_k2_monitor.Json.{Json, str, Fields, get_field, set_field, truthy}
use hermes_k2_monitor.Vault.{Buckets}
use hermes_k2_monitor.Vault.Tasks.{text_of as task_text}
use hermes_k2_monitor.Server.Gates.{Request, write_allowed}
use hermes_k2_monitor.Server.Mesh.{
  Outside, Mesh, Times, Route, Reply, error, crashed, adopted, tasks_update, broadcast, json_body,
  limit_request, after_state,
}

-- `(body.get("task_id") or "").strip()`; `none` is the AttributeError for a value that has no `strip`
unfoldable pub task_id_of : Option Json → Option String
task_id_of none = some ""
task_id_of (some (str s)) = some (strip_text s)
task_id_of (some v) = if truthy v then none else some ""

-- `dict(t, status="pending", assigned_to="")`
abbrev pub as_pending : Fields → Fields
as_pending task = set_field "assigned_to" (str "") (set_field "status" (str "pending") task)

-- `str(t.get("id")) == task_id`
abbrev pub has_task_id : (Json → String) → String → Fields → Bool
has_task_id text_of id task =
    str_eq (elim (get_field "id" task) [ none ↦ "None" | some v ↦ task_text text_of v ]) id

-- the first task of a list that has the id
unfoldable pub find_task : (Json → String) → String → List Fields → Option Fields
find_task text_of id [] = none
find_task text_of id (task ∷ tasks) =
    let rest = find_task text_of id tasks in if has_task_id text_of id task then some task else rest

-- the lists in the order in which they are searched
abbrev pub board : Buckets (List Fields) → List Fields
board b = b.of_pending ++ (b.of_processing ++ b.of_finished)

module _ {M : Type 0} (out : Outside M) (t : Times) where
  -- `_write_allowed`, with the 403 of its callers
  unfoldable pub require_write : Request → Route M Unit
  require_write r s = elim (write_allowed out.gate r) [
    | raised e ↦ (raised crashed, s)
    | ok false ↦ (raised (error 403 "owner or write-token required"), s)
    | ok true ↦ (ok tt, s)
  ]

  -- What is found is written to the path that the id makes, whatever the id is. What `scan_tasks` and `update_agents`
  -- read anew is not kept here.
  unfoldable pub adopt : String → Option Fields → Route M Reply
  adopt id none s = (raised (error 404 "task not found"), s)
  adopt id (some task) s =
      let name = append_text id ".json" in
      elim (out.place name (as_pending task) s.pending_files) [
        | none ↦ (raised crashed, s)
        | some files ↦ (
          ok (adopted (as_pending task) name),
          broadcast tasks_update (record s { pending_files = files }),
        )
      ]

  -- the search for the task, on the board that `collab_state` returns
  unfoldable pub adopt_id : Option String → Route M Reply
  unfolding adopt
  adopt_id none s = (raised crashed, s)
  adopt_id (some id) s =
      if str_eq id ""
      then (raised (error 400 "task_id required"), s)
      else adopt id (find_task out.text_of id (board s.auth.vault.state.tasks))
          (after_state out t s)

  -- `api_collab_adopt`
  unfoldable pub api_collab_adopt : Request → Option Json → Route M Reply
  unfolding json_body require_write adopt_id
  api_collab_adopt r body = do
    require_write r
    limit_request out t r "collab-adopt"
    b ← json_body body
    adopt_id (task_id_of (get_field "task_id" b))
