-- ===== src/Vault/Tasks/Board.antt =====
-- collab/vault.py: where `upsert_task` leaves a task, on the board and in the files.
use hermes_k2_monitor.Prelude.{
  ◌-◌, ◌≤◌, ◌≡◌, refl, String, Bool, true, false, List, [], ◌∷◌, ◌++◌, none, some, arith, str_eq,
  if◌then◌else◌, All, length, drop, keep_if, last_n, length-append, length-last_n-le,
  drop-append_le, All-drop, Dict, lookup, insert, erase, lookup-insert, lookup-erase, Bool-cases,
  inl, inr, ◌∙◌, Option, not,
}
use hermes_k2_monitor.Text.{codes, has_code}
use hermes_k2_monitor.Monad.{ok}
use hermes_k2_monitor.Json.{Json, Fields, get_field}
use hermes_k2_monitor.Vault.Defs.{
  TaskStatus, pending, processing, finished, Buckets, bucket, set_bucket, TaskOp, wrote, unlinked,
  Vault,
}
use hermes_k2_monitor.Vault.Tasks.{
  text_or, parse_status, other_task, write_task, file_under, stored, upsert_task,
}

abbrev pub same_status : TaskStatus → TaskStatus → Bool
same_status pending pending = true
same_status processing processing = true
same_status finished finished = true
same_status _ _ = false

-- No task of the list has the id.
abbrev pub IsWithout : String → List Fields → Type 0
IsWithout id ts = All (λ t. other_task id t ≡ true) ts

-- The task is the last of the list, no other has its id, and the list is within the limit.
abbrev pub IsNewest : String → Fields → List Fields → Type 0
IsNewest id t ts =
    (before : List Fields) × (ts ≡ before ++ t ∷ []) × IsWithout id before × (length ts ≤ 200)

-- What a list holds of a task that has been filed: in the list of its status, and in another.
abbrev pub IsFiled : Bool → String → Fields → List Fields → Type 0
IsFiled true id t ts = IsNewest id t ts
IsFiled false id t ts = IsWithout id ts

keep_if-IsWithout : (id : String) (ts : List Fields) → IsWithout id (keep_if (other_task id) ts)
keep_if-IsWithout id [] = tt
keep_if-IsWithout id (t ∷ ts) = elim (Bool-cases (other_task id t)) [
  | inl e ↦ rw e (e, keep_if-IsWithout id ts)
  | inr e ↦ rw e (keep_if-IsWithout id ts)
]

last_n-IsNewest :
    (id : String) (t : Fields) (ts : List Fields)
    → IsWithout id ts
    → IsNewest id t (last_n 200 (ts ++ t ∷ []))
last_n-IsNewest id t ts h =
    let n = length (ts ++ t ∷ []) - 200 in
    (
      drop n ts,
      drop-append_le n ts (t ∷ []) (omega (arith, length-append ts (t ∷ []))),
      All-drop (λ x. other_task id x ≡ true) n ts h,
      length-last_n-le 200 (ts ++ t ∷ []),
    )

module _ (id : String) (t : Fields) (b : Buckets (List Fields)) where
  file_under-IsFiled :
      (s r : TaskStatus) → IsFiled (same_status s r) id t (bucket r (file_under s id t b))
  file_under-IsFiled pending pending = last_n-IsNewest id t _ (keep_if-IsWithout id b.of_pending)
  file_under-IsFiled pending processing = keep_if-IsWithout id b.of_processing
  file_under-IsFiled pending finished = keep_if-IsWithout id b.of_finished
  file_under-IsFiled processing pending = keep_if-IsWithout id b.of_pending
  file_under-IsFiled processing processing =
      last_n-IsNewest id t _ (keep_if-IsWithout id b.of_processing)
  file_under-IsFiled processing finished = keep_if-IsWithout id b.of_finished
  file_under-IsFiled finished pending = keep_if-IsWithout id b.of_pending
  file_under-IsFiled finished processing = keep_if-IsWithout id b.of_processing
  file_under-IsFiled finished finished = last_n-IsNewest id t _ (keep_if-IsWithout id b.of_finished)

-- The file system keeps a name without a slash in the directory of its status.
abbrev pub act_on : TaskOp → Buckets (Dict Fields) → Buckets (Dict Fields)
act_on (wrote s id t) f = set_bucket s (insert id t (bucket s f)) f
act_on (unlinked s id) f = set_bucket s (erase id (bucket s f)) f

abbrev id_of : TaskOp → String
id_of (wrote s id t) = id
id_of (unlinked s id) = id

abbrev pub is_plain : String → Bool
is_plain id = not (has_code b'/' (codes id))

-- The files of the tasks after a sequence of writes and unlinks; `none` once a name with a slash has
-- been among them, of which nothing is said.
unfoldable pub carry_out : List TaskOp → Buckets (Dict Fields) → Option (Buckets (Dict Fields))
carry_out [] f = some f
carry_out (o ∷ os) f =
    let rest = carry_out os (act_on o f) in if is_plain (id_of o) then rest else none

carry_out-append :
    (os ps : List TaskOp) (f b : Buckets (Dict Fields))
    → carry_out os f ≡ some b
    → carry_out (os ++ ps) f ≡ carry_out ps b
unfolding carry_out
carry_out-append [] ps f b e = ground (arith, e)
carry_out-append (o ∷ os) ps f b e = elim (Bool-cases (is_plain (id_of o))) [
  | inl y ↦ rw y (carry_out-append os ps (act_on o f) b (ground arith))
  | inr n ↦ absurd (ground arith)
]

-- What the files of the tasks are after a task has been written.
abbrev pub IsWritten :
    TaskStatus → String → Fields → Buckets (Dict Fields) → Buckets (Dict Fields) → Type 0
IsWritten s id t b after =
    (r : TaskStatus) (j : String)
    → lookup j (bucket r after)
      ≡ (if str_eq id j then (if same_status s r then some t else none) else lookup j (bucket r b))

acts : List TaskOp → Buckets (Dict Fields) → Buckets (Dict Fields)
acts [] f = f
acts (o ∷ os) f = acts os (act_on o f)

acts-IsWritten :
    (s : TaskStatus) (id : String) (t : Fields) (b : Buckets (Dict Fields))
    → IsWritten s id t b (acts (write_task s id t) b)
unfolding acts
acts-IsWritten pending id t b pending j = lookup-insert id j t b.of_pending
acts-IsWritten pending id t b processing j = lookup-erase id j b.of_processing
acts-IsWritten pending id t b finished j = lookup-erase id j b.of_finished
acts-IsWritten processing id t b pending j = lookup-erase id j b.of_pending
acts-IsWritten processing id t b processing j = lookup-insert id j t b.of_processing
acts-IsWritten processing id t b finished j = lookup-erase id j b.of_finished
acts-IsWritten finished id t b pending j = lookup-erase id j b.of_pending
acts-IsWritten finished id t b processing j = lookup-erase id j b.of_processing
acts-IsWritten finished id t b finished j = lookup-insert id j t b.of_finished

carry_out-write_task :
    (s : TaskStatus) (id : String) (t : Fields) (b : Buckets (Dict Fields))
    → is_plain id ≡ true
    → carry_out (write_task s id t) b ≡ some (acts (write_task s id t) b)
unfolding carry_out acts
carry_out-write_task pending id t b plain = rw plain refl
carry_out-write_task processing id t b plain = rw plain refl
carry_out-write_task finished id t b plain = rw plain refl

module _ (repr : Json → String) (now uuid : String) (task : Fields) (v : Vault) (s : TaskStatus)
    (parsed : parse_status (text_or repr "pending" (get_field "status" task)) ≡ some s)
    (plain : is_plain (text_or repr uuid (get_field "id" task)) ≡ true)
    (f b : Buckets (Dict Fields)) (before : carry_out v.task_ops f ≡ some b) where
  -- When the status of the task names s and its id has no slash, the call returns the task as it stores
  -- it. That task is the last entry of the list of s, which holds at most 200 and no other with its id;
  -- no other list holds the id; of the files of the tasks, one of another id is as before, and the id
  -- has one, that of s, which holds the returned task; and state.json holds the new state. The file
  -- system keeps a name without a slash in its directory, and no earlier name had one.
  pub upsert_task_lem :
      (r : TaskStatus)
      → let id = text_or repr uuid (get_field "id" task) in
        let t = stored repr now id s task in
        let w = (upsert_task repr now uuid task v).1 in
        ((upsert_task repr now uuid task v).0 ≡ ok t)
        × IsFiled (same_status s r) id t (bucket r w.state.tasks)
        × ((after : Buckets (Dict Fields)) × (carry_out w.task_ops f ≡ some after)
            × IsWritten s id t b after)
        × (w.saved ≡ w.state)
  unfolding upsert_task
  upsert_task_lem r =
      let id = text_or repr uuid (get_field "id" task) in
      let t = stored repr now id s task in
      let ops = write_task s id t in
      rw (upsert_task, parsed)
        (
          refl,
          file_under-IsFiled id t v.state.tasks s r,
          (
            acts ops b,
            carry_out-append v.task_ops ops f b before ∙ carry_out-write_task s id t b plain,
            acts-IsWritten s id t b,
          ),
          refl,
        )
