-- ===== src/Server/Tasks/Entry.antt =====
-- server.py, `api_collab_task`: what a request does to the ledger, on every path.
use hermes_k2_monitor.Prelude.{
  ◌≡◌, ◌⊎◌, inl, inr, refl, ap, ◌∙◌, String, [], ◌∷◌, ◌++◌, Option, some, arith, eq_iff, str_eq,
  Bool-cases, Option-cases,
}
use mathlib.Core.Path.{subst⁻¹}
use hermes_k2_monitor.Monad.{Result, ok, raised, ◌>>=◌, continue, continue-cases}
use hermes_k2_monitor.Json.{Json, obj, Fields}
use hermes_k2_monitor.Vault.{Vault, row}
use hermes_k2_monitor.Vault.Chain.Clean.{IsClean, IsClean-same}
use hermes_k2_monitor.Vault.Tasks.{upsert_task}
use hermes_k2_monitor.Vault.Tasks.Files.{ledger-upsert_task, audit-upsert_task, files-upsert_task}
use hermes_k2_monitor.Vault.Events.Clean.{Checked}
use hermes_k2_monitor.Vault.Events.{entry_of, ensure_audit_clean}
use hermes_k2_monitor.Server.Gates.{Request}
use hermes_k2_monitor.Server.Mesh.{
  Outside, Mesh, Times, Reply, crashed, unavailable, bad_task, record_activity, iso_time,
}
use hermes_k2_monitor.Server.Mesh.Keeps.{Kept}
use hermes_k2_monitor.Server.Mesh.Calls.{past_vault_call, ensure_audit_clean-Kept}
use hermes_k2_monitor.Server.Mesh.Guards.{Passed, past_guards}
use hermes_k2_monitor.Server.Relaying.Append.{append-grows}
use hermes_k2_monitor.Server.Relaying.{Event, event_of, take_event, append, announce}
use hermes_k2_monitor.Server.Tasks.{
  act, action_of, task_in, task_event, require_op, take_task, publish_task, file_task,
  api_collab_task,
}

module _ {M : Type 0} (out : Outside M) (t : Times) (uuid task_uuid : String) (body : Option Json)
    (s : Mesh M) where
  -- The vault has one entry more: a task of an admitted node, as `upsert_task` has stored it.
  pub record Filed (v : Vault) : Type 0 where
    pub node : String
    pub fields : Fields
    pub reached : Mesh M
    pub passed : Passed out t body s node fields reached
    pub event : Event
    pub is_event : event_of fields ≡ some event
    pub is_task : event.op ≡ "task"
    pub task : Fields
    pub acted : act node (action_of event.payload) (task_in event.payload) ≡ some task
    pub saved : Fields
    pub before : Vault
    pub stored : (upsert_task out.text_of (iso_time out t) task_uuid task before).0 ≡ ok saved
    pub ledger :
        v.ledger
        ≡ s.auth.vault.ledger
          ++ row (
              obj (
                entry_of uuid
                  (iso_time out t)
                  node
                  "task"
                  (task_event (action_of event.payload) saved)
                  event.sig))
            ∷ []
    pub checked :
        Checked out.digest
          (entry_of uuid
            (iso_time out t)
            node
            "task"
            (task_event (action_of event.payload) saved)
            event.sig)
          v

  -- Either a request is refused, and the files are clean and the ledger is what it was, or its
  -- task is stored and filed.
  pub record Outcome (o : Result Reply Reply × Mesh M) : Type 0 where
    pub either :
        ((e : Reply) × (o.0 ≡ raised e)
          × (o.1.auth.vault.ledger ≡ s.auth.vault.ledger)
          × IsClean out.digest o.1.auth.vault)
        ⊎ Filed o.1.auth.vault

  module _ (clean : IsClean out.digest s.auth.vault) where
    IsClean-Kept : (v : Vault) → Kept s.auth.vault v → IsClean out.digest v
    IsClean-Kept v k = IsClean-same out.digest s.auth.vault v k.ledger k.audit clean

    stopped : (e : Reply) (w : Mesh M) → Kept s.auth.vault w.auth.vault → Outcome (raised e, w)
    stopped e w k = record { either = inl (e, refl, k.ledger, IsClean-Kept w.auth.vault k) }

    publish_task-auth :
        (action : Json) (saved entry : Fields) (w : Mesh M)
        → (publish_task out t action saved entry w).1.auth ≡ w.auth
    unfolding publish_task announce record_activity
    publish_task-auth action saved entry w = ground arith

    -- The last two steps, for a task that is stored.
    append-Outcome :
        (node : String) (fields : Fields) (reached : Mesh M) (e : Event) (task saved : Fields)
        (before : Vault) (w : Mesh M)
        → Passed out t body s node fields reached
        → event_of fields ≡ some e
        → e.op ≡ "task"
        → act node (action_of e.payload) (task_in e.payload) ≡ some task
        → (upsert_task out.text_of (iso_time out t) task_uuid task before).0 ≡ ok saved
        → Kept s.auth.vault w.auth.vault
        → Outcome (
            continue (publish_task out t (action_of e.payload) saved) (
              append out t uuid node
                (record {
                  op = "task";
                  payload = task_event (action_of e.payload) saved;
                  sig = e.sig;
                })
                w))
    append-Outcome node fields reached e task saved before w passed is_event is_task acted stored
          k =
        let a = action_of e.payload in
        let ev : Event = record { op = "task"; payload = task_event a saved; sig = e.sig } in
        let o = append out t uuid node ev w in
        let v = o.1.auth.vault in
        let (grown, cv) = append-grows out t uuid node ev w (IsClean-Kept w.auth.vault k) in
        let filed : Filed v = record {
          node = node;
          fields = fields;
          reached = reached;
          passed = passed;
          event = e;
          is_event = is_event;
          is_task = is_task;
          task = task;
          acted = acted;
          saved = saved;
          before = before;
          stored = stored;
          ledger =
              grown
              ∙ ap
                  (λ l.
                    l
                    ++ row (
                        obj (entry_of uuid (iso_time out t) node "task" (task_event a saved) e.sig))
                      ∷ [])
                  k.ledger;
          checked = cv;
        } in
        continue-cases Outcome (publish_task out t a saved) o (λ x _. record { either = inr filed })
          (λ entry _.
            let p : (publish_task out t a saved entry o.1).1.auth.vault ≡ v =
              ap (λ x. x.vault) (publish_task-auth a saved entry o.1) in
            record { either = inr (subst⁻¹ Filed p filed) })

    file_task-Outcome :
        (node : String) (fields : Fields) (e : Event) (w : Mesh M)
        → Passed out t body s node fields w
        → event_of fields ≡ some e
        → Outcome (file_task out t uuid task_uuid node e w)
    unfolding file_task require_op take_task
    file_task-Outcome node fields e w passed is_event = elim (Bool-cases (str_eq e.op "task")) [
      | inr n ↦ rw (require_op, n) (stopped _ w passed.kept)
      | inl y ↦ elim (Option-cases (act node (action_of e.payload) (task_in e.payload))) [
        | inl f ↦ rw (require_op, y, take_task, f) (stopped crashed w passed.kept)
        | inr (task, f) ↦
            rw (require_op, y, take_task, f)
              (past_vault_call s Outcome stopped unavailable (ensure_audit_clean out.digest) _ w
                (ensure_audit_clean-Kept out.digest) passed.kept
                (λ _ w₁ _ k₁.
                  past_vault_call s Outcome stopped bad_task
                    (upsert_task out.text_of (iso_time out t) task_uuid task) _ w₁
                    (λ v. record {
                      ledger = ledger-upsert_task out.text_of (iso_time out t) task_uuid task v;
                      audit = audit-upsert_task out.text_of (iso_time out t) task_uuid task v;
                      files = files-upsert_task out.text_of (iso_time out t) task_uuid task v;
                    })
                    k₁
                    (λ saved w₂ stored k₂.
                      append-Outcome node fields w e task saved w₁.auth.vault w₂ passed is_event
                        ((eq_iff e.op "task").0 y) f stored k₂)))
      ]
    ]

    take_event-Outcome :
        (node : String) (fields : Fields) (w : Mesh M)
        → Passed out t body s node fields w
        → Outcome ((take_event crashed fields >>= file_task out t uuid task_uuid node) w)
    unfolding take_event
    take_event-Outcome node fields w p = elim (Option-cases (event_of fields)) [
      | inl f ↦ rw (take_event, f) (stopped crashed w p.kept)
      | inr (e, f) ↦ rw (take_event, f) (file_task-Outcome node fields e w p f)
    ]

-- Whatever a request to `api_collab_task` is and however it ends, on clean files: either it is answered
-- with a refusal, the ledger is what it was and the files are clean, or the ledger has exactly one
-- entry more: a task event of an active and certified node whose body verifies, which holds the task
-- of the body as `upsert_task` has stored it, claimed or completed by that node if the action says so.
-- Then the files are clean again if that entry is one line for `splitlines`, and do not verify if it
-- is not.
pub api_collab_task_lem :
    {M : Type 0} (out : Outside M) (t : Times) (uuid task_uuid : String) (r : Request)
    (body : Option Json) (s : Mesh M)
    → IsClean out.digest s.auth.vault
    → Outcome out t uuid task_uuid body s (api_collab_task out t uuid task_uuid r body s)
unfolding api_collab_task
api_collab_task_lem out t uuid task_uuid r body s clean =
    past_guards out t body s (Outcome out t uuid task_uuid body s)
      (stopped out t uuid task_uuid body s clean)
      (λ node b _. take_event crashed b >>= file_task out t uuid task_uuid node)
      (take_event-Outcome out t uuid task_uuid body s clean) "task" r
