-- ===== src/Vault/Events/Clean.antt =====
-- collab/vault.py, `append_event`: the chain stays verified.
use hermes_k2_monitor.Prelude.{
  ◌≡◌, inl, inr, refl, sym, ap, ◌∙◌, String, true, false, none, List, [], ◌∷◌, ◌++◌, arith,
  Bool-cases,
}
use hermes_k2_monitor.Monad.{Result, ok, raised, Exec, ◌>>◌, pure, modify, continue}
use hermes_k2_monitor.Json.{Json, str, obj, Fields, get_field}
use hermes_k2_monitor.Vault.Defs.{VaultError, row, Vault}
use hermes_k2_monitor.Vault.Nodes.{register_node}
use hermes_k2_monitor.Vault.Lines.{is_one_line}
use hermes_k2_monitor.Vault.Chain.{split_rows, audit_lines, link, check_row, verify_audit_chain}
use hermes_k2_monitor.Vault.Chain.Clean.{
  IsClean, audit_lines-eq, IsClean-verify, IsClean-append, IsClean-same, check_row-linked,
}
use hermes_k2_monitor.Vault.Chain.Rows.{last_from, split_rows-append}
use hermes_k2_monitor.Vault.Tasks.Files.{ledger-upsert_task, audit-upsert_task, files-upsert_task}
use hermes_k2_monitor.Vault.Events.{
  last_hash, entry_of, task_of, audit_entry, ensure_audit_clean, apply_event, write_lines, synced,
  append_event,
}

last_hash-last_from : (as' : List Json) → last_hash as' ≡ last_from "" as'
unfolding last_hash
last_hash-last_from [] = refl
last_hash-last_from (a ∷ []) = refl
last_hash-last_from (a ∷ b ∷ as') = last_hash-last_from (b ∷ as')

-- The lines that `append_event` writes keep the files clean, if the entry is one line.
write_lines-IsClean :
    (digest : Json → String) (uuid now node op : String) (payload : Fields) (sig : String)
    (v : Vault)
    → IsClean digest v
    → is_one_line (obj (entry_of uuid now node op payload sig)) ≡ true
    → IsClean digest (write_lines digest uuid now (entry_of uuid now node op payload sig) v)
unfolding write_lines get_field
write_lines-IsClean digest uuid now node op payload sig v c one =
    let entry = obj (entry_of uuid now node op payload sig) in
    let prev = last_hash (audit_lines v.audit) in
    let prev_eq : prev ≡ last_from "" c.as' =
      ap last_hash (audit_lines-eq digest v c) ∙ last_hash-last_from c.as' in
    let hash = digest (link (str uuid) prev (digest entry)) in
    let a = audit_entry uuid prev (digest entry) hash now in
    IsClean-append digest v _ entry a c hash refl refl one refl (
      ap (λ p. check_row digest p entry a) (sym prev_eq)
      ∙ check_row-linked digest prev uuid entry a refl refl refl refl refl refl)

-- An entry of more than one line leaves a ledger that does not verify.
split-broken :
    (digest : Json → String) (v w : Vault) (l : Json) (c : IsClean digest v)
    → w.ledger ≡ v.ledger ++ row l ∷ []
    → is_one_line l ≡ false
    → verify_audit_chain digest w ≡ false
unfolding verify_audit_chain
split-broken digest v w l c e torn =
    let f : split_rows w.ledger ≡ none =
      rw (e, split_rows-append v.ledger c.ls l c.ledger_rows, torn) refl in
    ground (arith, f)

-- The files are clean, or the entry is more than one line and they do not verify.
pub data Checked (digest : Json → String) (entry : Fields) (w : Vault) : Type 0 where
  whole : IsClean digest w → Checked digest entry w
  broken :
      is_one_line (obj entry) ≡ false → verify_audit_chain digest w ≡ false → Checked digest entry w

-- What an event does to the state leaves both files alone.
module _ (repr : Json → String) (uuid now node op : String) (payload : Fields) (v : Vault) where
  ledger-apply_event : (apply_event repr uuid now node op payload v).1.ledger ≡ v.ledger
  unfolding apply_event register_node
  ledger-apply_event = ground (arith, ledger-upsert_task repr now uuid (task_of payload) v)

  audit-apply_event : (apply_event repr uuid now node op payload v).1.audit ≡ v.audit
  unfolding apply_event register_node
  audit-apply_event = ground (arith, audit-upsert_task repr now uuid (task_of payload) v)

  files-apply_event : (apply_event repr uuid now node op payload v).1.files ≡ v.files
  unfolding apply_event register_node
  files-apply_event = ground (arith, files-upsert_task repr now uuid (task_of payload) v)

-- The rest of `append_event` once the event has acted.
abbrev pub at_end : String → Fields → Unit {0} → Exec VaultError Vault Fields
at_end now entry _ = modify (synced now) >> pure entry

-- So does the end of `append_event`, whether the event returned or raised.
module _ (now : String) (entry : Fields) where
  ledger-synced :
      (o : Result VaultError Unit × Vault) → (continue (at_end now entry) o).1.ledger ≡ o.1.ledger
  ledger-synced (ok _, w) = refl
  ledger-synced (raised _, w) = refl

  audit-synced :
      (o : Result VaultError Unit × Vault) → (continue (at_end now entry) o).1.audit ≡ o.1.audit
  audit-synced (ok _, w) = refl
  audit-synced (raised _, w) = refl

  files-synced :
      (o : Result VaultError Unit × Vault) → (continue (at_end now entry) o).1.files ≡ o.1.files
  files-synced (ok _, w) = refl
  files-synced (raised _, w) = refl

module _ (digest repr : Json → String) (uuid now node op : String) (payload : Fields) (sig : String)
    (v : Vault) (clean : IsClean digest v) where
  abbrev written : Vault
  written = write_lines digest uuid now (entry_of uuid now node op payload sig) v

  -- On clean files `append_event` writes its lines and then lets the event act.
  pub append_event-clean :
      append_event digest repr uuid now node op payload sig v
      ≡ continue
          (at_end now (entry_of uuid now node op payload sig))
          (apply_event repr uuid now node op payload written)
  unfolding append_event
  append_event-clean = rw (append_event, ensure_audit_clean, IsClean-verify digest v clean)

  -- The files of the clients are the same.
  pub files-append_event :
      (append_event digest repr uuid now node op payload sig v).1.files ≡ v.files
  unfolding write_lines
  files-append_event =
      ap (λ x. x.1.files) append_event-clean
      ∙ files-synced now (entry_of uuid now node op payload sig)
          (apply_event repr uuid now node op payload written)
      ∙ files-apply_event repr uuid now node op payload written

  -- An event on clean files, whether it returns or raises, leaves exactly one ledger row more, the
  -- entry itself. The files are clean again and verify, unless some text of the entry has one of the
  -- characters U+0085, U+2028 and U+2029, so that `splitlines` makes several lines of its row: then
  -- they do not verify.
  pub append_event-Checked :
      let w = (append_event digest repr uuid now node op payload sig v).1 in
      (w.ledger ≡ v.ledger ++ row (obj (entry_of uuid now node op payload sig)) ∷ [])
      × Checked digest (entry_of uuid now node op payload sig) w
      × (verify_audit_chain digest w ≡ is_one_line (obj (entry_of uuid now node op payload sig)))
  append_event-Checked =
      let entry = entry_of uuid now node op payload sig in
      let w = (append_event digest repr uuid now node op payload sig v).1 in
      let o = apply_event repr uuid now node op payload written in
      let el : w.ledger ≡ written.ledger =
        ap (λ x. x.1.ledger) append_event-clean
        ∙ ledger-synced now entry o
        ∙ ledger-apply_event repr uuid now node op payload written in
      let ea : w.audit ≡ written.audit =
        ap (λ x. x.1.audit) append_event-clean
        ∙ audit-synced now entry o
        ∙ audit-apply_event repr uuid now node op payload written in
      let grown : w.ledger ≡ v.ledger ++ row (obj entry) ∷ [] = el ∙ unfold write_lines in refl in
      elim (Bool-cases (is_one_line (obj entry))) [
        | inl one ↦
            let c =
              IsClean-same digest written w el ea
                (write_lines-IsClean digest uuid now node op payload sig v clean one) in
            (grown, whole c, IsClean-verify digest w c ∙ sym one)
        | inr torn ↦
            let bad = split-broken digest v w (obj entry) clean grown torn in
            (grown, broken torn bad, bad ∙ sym torn)
      ]
