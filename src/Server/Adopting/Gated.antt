-- ===== src/Server/Adopting/Gated.antt =====
-- server.py, `api_collab_adopt`: who can put a task into the local queue, and which.
use hermes_k2_monitor.Prelude.{
  ◌≡◌, ◌⊎◌, inl, inr, refl, sym, ap, ◌∙◌, String, true, List, [], ◌∷◌, ◌++◌, Option, none, some,
  arith, str_eq, insert, Bool-cases, Option-cases, All, Dict, false,
}
use Prim.Native.String.{◌++◌ as append_text}
use hermes_k2_monitor.Text.{codes, has_code}
use hermes_k2_monitor.Monad.{Result, ok, raised, continue-cases}
use hermes_k2_monitor.Json.{Json, obj, Fields, get_field}
use hermes_k2_monitor.Server.Gates.{Request, write_allowed}
use hermes_k2_monitor.Server.Mesh.{Outside, Mesh, Times, Reply, limit_request, json_body}
use hermes_k2_monitor.Server.Mesh.Keeps.{limit_peer-keeps, json_body-keeps, json_body-eq}
use hermes_k2_monitor.Server.Adopting.{
  task_id_of, as_pending, has_task_id, find_task, board, require_write, adopt, adopt_id,
  api_collab_adopt,
}

-- The first task of the list that has the id.
pub record Found (text_of : Json → String) (id : String) (tasks : List Fields) (task : Fields)
    : Type 0 where
  pub before : List Fields
  pub is_first : All (λ x. has_task_id text_of id x ≡ false) before
  pub after : List Fields
  pub split : tasks ≡ before ++ task ∷ after
  pub same_id : has_task_id text_of id task ≡ true

find_task-Found :
    (text_of : Json → String) (id : String) (tasks : List Fields) (task : Fields)
    → find_task text_of id tasks ≡ some task
    → Found text_of id tasks task
unfolding find_task
find_task-Found text_of id [] task e = absurd cc
find_task-Found text_of id (x ∷ xs) task e = elim (Bool-cases (has_task_id text_of id x)) [
  | inl y ↦
      let same : x ≡ task = ground arith in
      record {
        before = [];
        is_first = tt;
        after = xs;
        split = ap (λ z. z ∷ xs) same;
        same_id = rw (← same) y;
      }
  | inr n ↦
      let f = find_task-Found text_of id xs task (ground arith) in
      record {
        before = x ∷ f.before;
        is_first = (n, f.is_first);
        after = f.after;
        split = ap (λ zs. x ∷ zs) f.split;
        same_id = f.same_id;
      }
]

-- The file system keeps a name without a slash in the directory.
abbrev pub IsPlaced : {M : Type 0} → Outside M → Type 0
IsPlaced out =
    (name : String) (task : Fields) (files after : Dict Fields)
    → has_code b'/' (codes name) ≡ false
    → out.place name task files ≡ some after
    → after ≡ insert name task files

module _ {M : Type 0} (out : Outside M) (t : Times) (r : Request) (s : Mesh M) where
  pub require_write-keeps : (require_write out t r s).1 ≡ s
  unfolding require_write
  require_write-keeps = ground arith

  pub require_write-eq :
      (u : Unit {0}) → (require_write out t r s).0 ≡ ok u → write_allowed out.gate r ≡ ok true
  unfolding require_write
  require_write-eq u e = ground arith

  -- The caller may write, the body names the first task of the shared board with an id, and that task
  -- is written, as pending and assigned to none: to the queue, unless its name has a slash.
  pub record Adopted (body : Option Json) (w : Mesh M) : Type 0 where
    pub allowed : write_allowed out.gate r ≡ ok true
    pub fields : Fields
    pub is_body : body ≡ some (obj fields)
    pub id : String
    pub asked : task_id_of (get_field "task_id" fields) ≡ some id
    pub not_empty : str_eq id "" ≡ false
    pub task : Fields
    pub shared : Found out.text_of id (board s.auth.vault.state.tasks) task
    pub written :
        out.place (append_text id ".json") (as_pending task) s.pending_files ≡ some w.pending_files
    pub queue :
        (has_code b'/' (codes (append_text id ".json")) ≡ true)
        ⊎ (w.pending_files ≡ insert (append_text id ".json") (as_pending task) s.pending_files)

  abbrev pub Outcome : Option Json → Result Reply Reply × Mesh M → Type 0
  Outcome body o =
      ((e : Reply) × (o.0 ≡ raised e) × (o.1.pending_files ≡ s.pending_files)) ⊎ Adopted body o.1

  module _ (placed : IsPlaced out) (body : Option Json) (fields : Fields)
      (is_body : body ≡ some (obj fields)) (allowed : write_allowed out.gate r ≡ ok true) where
    in_queue :
        (id : String) (task : Fields) (files : Dict Fields)
        → out.place (append_text id ".json") task s.pending_files ≡ some files
        → (has_code b'/' (codes (append_text id ".json")) ≡ true)
          ⊎ (files ≡ insert (append_text id ".json") task s.pending_files)
    in_queue id task files e = elim (Bool-cases (has_code b'/' (codes (append_text id ".json")))) [
      | inl y ↦ inl y
      | inr n ↦ inr (placed (append_text id ".json") task s.pending_files files n e)
    ]

    adopt-Outcome :
        (id : String) (o : Option Fields) (w : Mesh M)
        → task_id_of (get_field "task_id" fields) ≡ some id
        → str_eq id "" ≡ false
        → find_task out.text_of id (board s.auth.vault.state.tasks) ≡ o
        → w.pending_files ≡ s.pending_files
        → Outcome body (adopt out t id o w)
    unfolding adopt
    adopt-Outcome id none w asked ne e q = inl (_, refl, q)
    adopt-Outcome id (some task) w asked ne e q =
        let name = append_text id ".json" in
        elim (Option-cases (out.place name (as_pending task) w.pending_files)) [
          | inl f ↦ rw (adopt, f) (inl (_, refl, q))
          | inr (files, f) ↦
              let g : out.place name (as_pending task) s.pending_files ≡ some files = rw (← q) f in
              rw (adopt, f)
                (inr (record {
                  allowed = allowed;
                  fields = fields;
                  is_body = is_body;
                  id = id;
                  asked = asked;
                  not_empty = ne;
                  task = task;
                  shared = find_task-Found out.text_of id (board s.auth.vault.state.tasks) task e;
                  written = g;
                  queue = in_queue id (as_pending task) files g;
                }))
        ]

    adopt_id-Outcome :
        (o : Option String) (w : Mesh M)
        → w.auth ≡ s.auth
        → w.pending_files ≡ s.pending_files
        → task_id_of (get_field "task_id" fields) ≡ o
        → Outcome body (adopt_id out t o w)
    unfolding adopt_id
    adopt_id-Outcome none w a q asked = inl (_, refl, q)
    adopt_id-Outcome (some id) w a q asked = elim (Bool-cases (str_eq id "")) [
      | inl y ↦ rw (adopt_id, y) (inl (_, refl, q))
      | inr n ↦
          rw (adopt_id, n)
            (adopt-Outcome id (find_task out.text_of id (board w.auth.vault.state.tasks)) _ asked n
              (ap (λ x. find_task out.text_of id (board x.vault.state.tasks)) (sym a)) q)
    ]

-- Whatever a request to `api_collab_adopt` is: either it is refused and the local queue of pending tasks
-- is what it was, or the caller passes the gate of the writing routes, the body's "task_id", stripped,
-- is an id, and the first task of the shared board with that id, set to pending and assigned to nobody,
-- is written to the path that the id makes; that is, if the name has no slash, the queue has gained
-- it under the id. The file system keeps a name without a slash in the queue's directory.
pub api_collab_adopt_lem :
    {M : Type 0} (out : Outside M) (t : Times) (r : Request) (body : Option Json) (s : Mesh M)
    → IsPlaced out
    → Outcome out t r s body (api_collab_adopt out t r body s)
unfolding api_collab_adopt
api_collab_adopt_lem out t r body s placed =
    let P = Outcome out t r s body in
    let o = require_write out t r s in
    let same = require_write-keeps out t r s in
    continue-cases P _ o (λ e _. inl (e, refl, ap (λ x. x.pending_files) same))
      (λ u asked.
        let p = limit_request out t r "collab-adopt" o.1 in
        let (a, _, _, q, _) = limit_peer-keeps out t "collab-adopt" _ o.1 in
        let queue : p.1.pending_files ≡ s.pending_files = q ∙ ap (λ x. x.pending_files) same in
        continue-cases P _ p (λ e _. inl (e, refl, queue))
          (λ _ _.
            let b = json_body body p.1 in
            let read = json_body-keeps body p.1 in
            let queue' : b.1.pending_files ≡ s.pending_files =
              ap (λ x. x.pending_files) read ∙ queue in
            continue-cases P _ b (λ e _. inl (e, refl, queue'))
              (λ fields is_obj.
                adopt_id-Outcome out t r s placed body fields (json_body-eq body p.1 fields is_obj)
                  (require_write-eq out t r s u asked) (task_id_of (get_field "task_id" fields)) b.1
                  (ap (λ x. x.auth) read ∙ a ∙ ap (λ x. x.auth) same) queue' refl)))
