-- ===== src/Server/Exporting/Entry.antt =====
-- server.py, `api_collab_export`: what a request does to the ledger, on every path.
use hermes_k2_monitor.Prelude.{
  ◌≡◌, ◌⊎◌, inl, inr, refl, ap, ◌∙◌, String, Bool, true, List, [], ◌∷◌, ◌++◌, Option, none, some,
  arith, Bool-cases,
}
use mathlib.Core.Path.{subst⁻¹}
use hermes_k2_monitor.Monad.{Result, ok, raised, continue, continue-cases}
use hermes_k2_monitor.Json.{Json, str, obj, Fields, get_field}
use hermes_k2_monitor.Vault.{Buckets, Vault, row}
use hermes_k2_monitor.Vault.Chain.Clean.{IsClean, IsClean-same}
use hermes_k2_monitor.Vault.Tasks.{upsert_task}
use hermes_k2_monitor.Vault.Tasks.Files.{ledger-upsert_task, audit-upsert_task, files-upsert_task}
use hermes_k2_monitor.Vault.Events.Clean.{Checked}
use hermes_k2_monitor.Vault.Events.{entry_of, ensure_audit_clean}
use hermes_k2_monitor.Relay.{Error, ready}
use hermes_k2_monitor.Server.Gates.{Request, write_allowed}
use hermes_k2_monitor.Server.Mesh.{
  Outside, Mesh, Times, Reply, unavailable, record_activity, iso_time, limit_request, json_body,
}
use hermes_k2_monitor.Server.Mesh.Keeps.{Kept, Kept-same, limit_peer-keeps, json_body-keeps}
use hermes_k2_monitor.Server.Mesh.Calls.{past_vault_call, ensure_audit_clean-Kept}
use hermes_k2_monitor.Server.Relaying.{Event, append, announce}
use hermes_k2_monitor.Server.Relaying.Append.{append-grows}
use hermes_k2_monitor.Server.Tasks.{task_event}
use hermes_k2_monitor.Server.Adopting.{require_write}
use hermes_k2_monitor.Server.Adopting.Gated.{require_write-keeps, require_write-eq}
use hermes_k2_monitor.Server.LocalTasks.{File, LocalTask}
use hermes_k2_monitor.Server.Exporting.{
  local_task, take_source, after_forward, publish_export, file_export, api_collab_export,
}

pub after_forward-state :
    {M : Type 0} (o : Result Error Bool) (answer : Reply) (w : Mesh M)
    → (after_forward o answer w).1 ≡ w
unfolding after_forward
after_forward-state (ok b) answer w = refl
after_forward-state (raised e) answer w = refl

take_source-state : {M : Type 0} (o : Option LocalTask) (w : Mesh M) → (take_source o w).1 ≡ w
unfolding take_source
take_source-state none w = refl
take_source-state (some x) w = ground arith

module _ {M : Type 0} (out : Outside M) (t : Times) (uuid task_uuid : String) (r : Request)
    (s : Mesh M) where
  -- The caller may write, and the vault has one entry more: a task that `upsert_task` has stored, in the
  -- name of this server.
  pub record Exported (v : Vault) : Type 0 where
    pub allowed : write_allowed out.gate r ≡ ok true
    pub source : Fields
    pub saved : Fields
    pub before : Vault
    pub stored : (upsert_task out.text_of (iso_time out t) task_uuid source before).0 ≡ ok saved
    pub ledger :
        v.ledger
        ≡ s.auth.vault.ledger
          ++ row (
              obj (
                entry_of uuid
                  (iso_time out t)
                  s.hub.relay.local_node_id
                  "task"
                  (task_event (str "export") saved)
                  "local-export"))
            ∷ []
    pub checked :
        Checked out.digest
          (entry_of uuid
            (iso_time out t)
            s.hub.relay.local_node_id
            "task"
            (task_event (str "export") saved)
            "local-export")
          v

  pub record Outcome (o : Result Reply Reply × Mesh M) : Type 0 where
    pub either :
        ((e : Reply) × (o.0 ≡ raised e)
          × (o.1.auth.vault.ledger ≡ s.auth.vault.ledger)
          × IsClean out.digest o.1.auth.vault)
        ⊎ Exported o.1.auth.vault

  module _ (clean : IsClean out.digest s.auth.vault) where
    IsClean-Kept : (v : Vault) → Kept s.auth.vault v → IsClean out.digest v
    IsClean-Kept v k = IsClean-same out.digest s.auth.vault v k.ledger k.audit clean

    stopped : (e : Reply) (w : Mesh M) → Kept s.auth.vault w.auth.vault → Outcome (raised e, w)
    stopped e w k = record { either = inl (e, refl, k.ledger, IsClean-Kept w.auth.vault k) }

    publish_export-auth :
        (saved entry : Fields) (w : Mesh M) → (publish_export out t saved entry w).1.auth ≡ w.auth
    unfolding publish_export announce record_activity
    publish_export-auth saved entry w = elim (Bool-cases (ready w.hub.relay)) [
      | inl y ↦ rw (publish_export, y) (ap (λ x. x.auth) (after_forward-state _ _ _))
      | inr n ↦ rw (publish_export, n) refl
    ]

    module _ (allowed : write_allowed out.gate r ≡ ok true) where
      append-Outcome :
          (source saved : Fields) (before : Vault) (w : Mesh M)
          → (upsert_task out.text_of (iso_time out t) task_uuid source before).0 ≡ ok saved
          → Kept s.auth.vault w.auth.vault
          → Outcome (
              continue (publish_export out t saved) (
                append out t uuid s.hub.relay.local_node_id
                  (record {
                    op = "task";
                    payload = task_event (str "export") saved;
                    sig = "local-export";
                  })
                  w))
      append-Outcome source saved before w stored k =
          let node = s.hub.relay.local_node_id in
          let ev : Event = record {
            op = "task";
            payload = task_event (str "export") saved;
            sig = "local-export";
          } in
          let o = append out t uuid node ev w in
          let v = o.1.auth.vault in
          let (grown, cv) = append-grows out t uuid node ev w (IsClean-Kept w.auth.vault k) in
          let done : Exported v = record {
            allowed = allowed;
            source = source;
            saved = saved;
            before = before;
            stored = stored;
            ledger =
                grown
                ∙ ap
                    (λ l.
                      l
                      ++ row (
                          obj
                            (entry_of uuid (iso_time out t) node "task" ev.payload "local-export"))
                        ∷ [])
                    k.ledger;
            checked = cv;
          } in
          continue-cases Outcome (publish_export out t saved) o
            (λ x _. record { either = inr done })
            (λ entry _.
              let p : (publish_export out t saved entry o.1).1.auth.vault ≡ v =
                ap (λ x. x.vault) (publish_export-auth saved entry o.1) in
              record { either = inr (subst⁻¹ Exported p done) })

      file_export-Outcome :
          (source : Fields) (w : Mesh M)
          → Kept s.auth.vault w.auth.vault
          → w.hub ≡ s.hub
          → Outcome (file_export out t uuid task_uuid source w)
      unfolding file_export
      file_export-Outcome source w k same =
          past_vault_call s Outcome stopped unavailable (ensure_audit_clean out.digest) _ w
            (ensure_audit_clean-Kept out.digest) k
            (λ _ w₁ _ k₁.
              past_vault_call s Outcome stopped unavailable
                (upsert_task out.text_of (iso_time out t) task_uuid source) _ w₁
                (λ v. record {
                  ledger = ledger-upsert_task out.text_of (iso_time out t) task_uuid source v;
                  audit = audit-upsert_task out.text_of (iso_time out t) task_uuid source v;
                  files = files-upsert_task out.text_of (iso_time out t) task_uuid source v;
                })
                k₁
                (λ saved w₂ stored k₂.
                  rw same (append-Outcome source saved w₁.auth.vault w₂ stored k₂)))

-- Whatever a request to `api_collab_export` is and however it ends, on clean files: either it is
-- answered with a refusal, the ledger is what it was and the files are clean, or the caller passes the
-- gate of the writing routes and the ledger has exactly one entry more: a task event in the name of
-- this server, with the task as `upsert_task` has stored it. Then the files are clean again if that
-- entry is one line for `splitlines`, and do not verify if it is not.
pub api_collab_export_lem :
    {M : Type 0} (out : Outside M) (t : Times) (uuid task_uuid : String)
    (files : Buckets (List File)) (r : Request) (body : Option Json) (s : Mesh M)
    → IsClean out.digest s.auth.vault
    → Outcome out t uuid task_uuid r s (api_collab_export out t uuid task_uuid files r body s)
unfolding api_collab_export
api_collab_export_lem out t uuid task_uuid files r body s clean =
    let P = Outcome out t uuid task_uuid r s in
    let stop = stopped out t uuid task_uuid r s clean in
    let o = require_write out t r s in
    let kept = λ (x : Mesh _) (e : x.auth ≡ s.auth).
      subst⁻¹ (λ a. Kept s.auth.vault a.vault) e (Kept-same s.auth.vault) in
    let same = require_write-keeps out t r s in
    let same_auth : o.1.auth ≡ s.auth = ap (λ x. x.auth) same in
    continue-cases P _ o (λ e _. stop e o.1 (kept o.1 same_auth))
      (λ u asked.
        let p = limit_request out t r "collab-export" o.1 in
        let (a, _, _, _, h) = limit_peer-keeps out t "collab-export" _ o.1 in
        continue-cases P _ p (λ e _. stop e p.1 (kept p.1 (a ∙ same_auth)))
          (λ _ _.
            let b = json_body body p.1 in
            let read = json_body-keeps body p.1 in
            let read_auth : b.1.auth ≡ s.auth = ap (λ x. x.auth) read ∙ a ∙ same_auth in
            continue-cases P _ b (λ e _. stop e b.1 (kept b.1 read_auth))
              (λ fields _.
                let found = local_task out.text_of files (get_field "task_id" fields) in
                let q = take_source found b.1 in
                let took = take_source-state found b.1 in
                let k = kept q.1 (ap (λ x. x.auth) took ∙ read_auth) in
                continue-cases P (file_export out t uuid task_uuid) q (λ e _. stop e q.1 k)
                  (λ source _.
                    file_export-Outcome out t uuid task_uuid r s clean
                      (require_write-eq out t r s u asked) source q.1 k
                      (ap (λ x. x.hub) took ∙ ap (λ x. x.hub) read ∙ h ∙ ap (λ x. x.hub) same)))))
