-- ===== src/Server/Relaying/Append.antt =====
-- server.py: `collab_vault.append_event` in a route, on clean files.
use hermes_k2_monitor.Prelude.{◌≡◌, ap, ◌∙◌, String, [], ◌∷◌, ◌++◌, arith}
use mathlib.Core.Path.{subst⁻¹}
use hermes_k2_monitor.Json.{obj}
use hermes_k2_monitor.Vault.{row}
use hermes_k2_monitor.Vault.Chain.Clean.{IsClean}
use hermes_k2_monitor.Vault.Events.{entry_of, append_event}
use hermes_k2_monitor.Vault.Events.Clean.{Checked, append_event-Checked, files-append_event}
use hermes_k2_monitor.Server.Mesh.{Outside, Mesh, Times, iso_time}
use hermes_k2_monitor.Server.Relaying.{Event, answered, append}

module _ {M : Type 0} (out : Outside M) (t : Times) (uuid signed : String) (e : Event)
    (w : Mesh M) where
  vault-append :
      (append out t uuid signed e w).1.auth.vault
      ≡ (append_event out.digest out.text_of uuid
          (iso_time out t)
          signed
          e.op
          e.payload
          e.sig
          w.auth.vault).1
  unfolding append answered
  vault-append = ground arith

  -- The ledger has the entry more, and the files stay clean if the entry is one line, whether the vault
  -- returns or raises.
  pub append-grows :
      IsClean out.digest w.auth.vault
      → let v = (append out t uuid signed e w).1.auth.vault in
        (v.ledger
          ≡ w.auth.vault.ledger
            ++ row (obj (entry_of uuid (iso_time out t) signed e.op e.payload e.sig)) ∷ [])
        × Checked out.digest (entry_of uuid (iso_time out t) signed e.op e.payload e.sig) v
  append-grows clean =
      let (grown, c, _) =
        append_event-Checked out.digest out.text_of uuid (iso_time out t) signed e.op e.payload
          e.sig w.auth.vault clean in
      (
        ap (λ x. x.ledger) vault-append ∙ grown,
        subst⁻¹ (Checked out.digest (entry_of uuid (iso_time out t) signed e.op e.payload e.sig))
            vault-append c,
      )

  pub files-append :
      IsClean out.digest w.auth.vault
      → (append out t uuid signed e w).1.auth.vault.files ≡ w.auth.vault.files
  files-append clean =
      ap (λ x. x.files) vault-append
      ∙ files-append_event out.digest out.text_of uuid (iso_time out t) signed e.op e.payload e.sig
          w.auth.vault clean
