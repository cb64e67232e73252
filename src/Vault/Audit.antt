-- ===== src/Vault/Audit.antt =====
-- collab/vault.py: what the vault reports of its files, `audit_status` and `read_ledger`.
pub mod Reports
use hermes_k2_monitor.Prelude.{
  ℕ, suc, ◌+◌, String, Bool, true, false, not, List, [], ◌∷◌, Option, none, some, max, min,
  if◌then◌else◌, length, last_n, count_if,
}
use hermes_k2_monitor.Json.{Json, str, is_obj}
use hermes_k2_monitor.Vault.Defs.{Line, blank, garbage, row, State, Vault, set_state}
use hermes_k2_monitor.Vault.Lines.{line_count}
use hermes_k2_monitor.Vault.Chain.{get, audit_lines, verify_audit_chain}

pub record AuditStatus : Type 0 where
  pub verified : Bool
  pub tampered : Bool
  pub entries : ℕ
  pub expected : ℕ
  pub last_hash : Option Json

-- `sum(1 for line in ….splitlines() if line.strip())`
abbrev pub filled_lines : List Line → ℕ
filled_lines [] = 0
filled_lines (blank ∷ ls) = filled_lines ls
filled_lines (garbage ∷ ls) = suc (filled_lines ls)
filled_lines (row v ∷ ls) = line_count v + filled_lines ls

-- `audit_rows[-1].get("hash") if audit_rows else ""`
abbrev hash_of_last : List Json → Option Json
hash_of_last [] = some (str "")
hash_of_last (a ∷ []) = get "hash" a
hash_of_last (a ∷ b ∷ as') = hash_of_last (b ∷ as')

-- `audit_status`, which sets the mark in memory only
pub audit_status : (Json → String) → Vault → AuditStatus × Vault
audit_status digest v =
    let ok = verify_audit_chain digest v in
    let as' = audit_lines v.audit in
    (
      record {
        verified = ok;
        tampered = not ok;
        entries = length as';
        expected = filled_lines v.ledger;
        last_hash = hash_of_last as';
      },
      set_state (record (v.state) { audit_tampered = not ok }) v,
    )

-- The lines of the ledger that hold an object.
abbrev pub entries_of : List Line → List Json
entries_of [] = []
entries_of (row v ∷ ls) = if is_obj v then v ∷ entries_of ls else entries_of ls
entries_of (blank ∷ ls) = entries_of ls
entries_of (garbage ∷ ls) = entries_of ls

-- `read_ledger`
pub read_ledger : ℕ → Vault → List Json
read_ledger limit v = last_n (max 1 (min limit 500)) (entries_of v.ledger)
