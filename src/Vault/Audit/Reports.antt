-- ===== src/Vault/Audit/Reports.antt =====
-- collab/vault.py: the reports on a vault that is verified, and after an event.
use hermes_k2_monitor.Prelude.{
  ℕ, ◌≡◌, ◌≤◌, refl, ap, ◌∙◌, String, true, List, [], ◌∷◌, ◌++◌, some, arith, max, min, length,
  last_n, length-last_n-le, Option-cases, inl, inr,
}
use hermes_k2_monitor.Json.{Json, obj, is_obj, Fields}
use hermes_k2_monitor.Vault.Defs.{Line, blank, garbage, row, Vault}
use hermes_k2_monitor.Vault.Chain.{split_rows, verify_audit_chain}
use hermes_k2_monitor.Vault.Chain.Clean.{IsClean}
use hermes_k2_monitor.Vault.Events.{entry_of, append_event}
use hermes_k2_monitor.Vault.Events.Clean.{append_event-Checked}
use hermes_k2_monitor.Vault.Audit.{filled_lines, audit_status, entries_of, read_ledger}

length-rows :
    (ls : List Line) (vs : List Json) → split_rows ls ≡ some vs → length vs ≡ filled_lines ls
unfolding split_rows
length-rows [] vs e = ground arith
length-rows (blank ∷ ls) vs e = length-rows ls vs e
length-rows (garbage ∷ ls) vs e = cc
length-rows (row v ∷ ls) vs e = elim (Option-cases (split_rows ls)) [
  | inl bad ↦ absurd (ground arith)
  | inr (us, f) ↦ ground (arith, length-rows ls us f)
]

-- Of a chain that verifies, `audit_status` reports as many entries as it expects.
pub audit_status-verified :
    (digest : Json → String) (v : Vault)
    → verify_audit_chain digest v ≡ true
    → (audit_status digest v).0.entries ≡ (audit_status digest v).0.expected
unfolding audit_status verify_audit_chain
audit_status-verified digest v h = elim (Option-cases (split_rows v.ledger)) [
  | inl bad ↦ ground arith
  | inr (ls, f) ↦ ground (arith, length-rows v.ledger ls f)
]

entries_of-append :
    (ls : List Line) (v : Json)
    → is_obj v ≡ true
    → entries_of (ls ++ row v ∷ []) ≡ entries_of ls ++ v ∷ []
entries_of-append [] v h = ground arith
entries_of-append (blank ∷ ls) v h = entries_of-append ls v h
entries_of-append (garbage ∷ ls) v h = entries_of-append ls v h
entries_of-append (row w ∷ ls) v h = ground (arith, entries_of-append ls v h)

-- After an event on clean files `read_ledger` returns the newest entries, as many as the limit allows
-- between 1 and 500, and the last of them is that of the event.
pub read_ledger-append_event :
    (digest repr : Json → String) (uuid now node op : String) (payload : Fields) (sig : String)
    (v : Vault) (limit : ℕ)
    → IsClean digest v
    → read_ledger limit (append_event digest repr uuid now node op payload sig v).1
      ≡ last_n
          (max 1 (min limit 500))
          (entries_of v.ledger ++ obj (entry_of uuid now node op payload sig) ∷ [])
unfolding read_ledger
read_ledger-append_event digest repr uuid now node op payload sig v limit clean =
    let entry = obj (entry_of uuid now node op payload sig) in
    let e = (append_event-Checked digest repr uuid now node op payload sig v clean).0 in
    ap (λ ls. last_n (max 1 (min limit 500)) (entries_of ls)) e
    ∙ ap (last_n (max 1 (min limit 500))) (entries_of-append v.ledger entry refl)

-- `read_ledger` returns 500 entries at most.
pub length-read_ledger : (limit : ℕ) (v : Vault) → length (read_ledger limit v) ≤ 500
unfolding read_ledger
length-read_ledger limit v =
    let n = max 1 (min limit 500) in omega (arith, length-last_n-le n (entries_of v.ledger))

-- What `read_ledger` returns hangs on the ledger only.
pub read_ledger-same :
    (limit : ℕ) (v w : Vault) → v.ledger ≡ w.ledger → read_ledger limit v ≡ read_ledger limit w
unfolding read_ledger
read_ledger-same limit v w e = ap (λ ls. last_n (max 1 (min limit 500)) (entries_of ls)) e

-- `audit_status` leaves the files as they are.
pub audit_status-keeps :
    (digest : Json → String) (v : Vault)
    → ((audit_status digest v).1.ledger ≡ v.ledger)
      × ((audit_status digest v).1.audit ≡ v.audit)
      × ((audit_status digest v).1.files ≡ v.files)
unfolding audit_status
audit_status-keeps digest v = (refl, refl, refl)
