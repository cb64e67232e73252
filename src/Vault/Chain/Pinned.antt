-- ===== src/Vault/Chain/Pinned.antt =====
-- collab/vault.py, `verify_audit_chain`: what an audit file fixes of the ledger beside it.
use hermes_k2_monitor.Prelude.{
  ◌≡◌, refl, sym, ap, ap₂, ◌∙◌, String, true, List, [], ◌∷◌, Option, some, arith, length, map,
  Option-cases, inl, inr,
}
use hermes_k2_monitor.Json.{Json, str}
use hermes_k2_monitor.Vault.Defs.{Vault}
use hermes_k2_monitor.Vault.Chain.{
  rows, split_rows, audit_lines, get, check_rows, verify_audit_chain,
}
use hermes_k2_monitor.Vault.Chain.Rows.{check_row-digest, check_rows-first, split_rows-rows}

abbrev text_or_empty : Option Json → String
text_or_empty (some (str s)) = s
text_or_empty _ = ""

-- the digests on file in the audit rows
abbrev entry_hashes : List Json → List String
entry_hashes as' = map (λ a. text_or_empty (get "entry_hash" a)) as'

check_rows-digests :
    (digest : Json → String) (p : String) (ls as' : List Json)
    → length ls ≡ length as'
    → check_rows digest p ls as' ≡ true
    → map digest ls ≡ entry_hashes as'
unfolding check_rows
check_rows-digests digest p [] [] n h = refl
check_rows-digests digest p [] (b ∷ as') n h = absurd (omega (arith, n))
check_rows-digests digest p (k ∷ ls) [] n h = absurd (omega (arith, n))
check_rows-digests digest p (k ∷ ls) (b ∷ as') n h =
    let (d, f, rest) = check_rows-first digest p k b ls as' h in
    ap₂ (λ (x : String) (xs : List String). x ∷ xs)
      (sym (ap text_or_empty (check_row-digest digest p k b d f)))
      (check_rows-digests digest d ls as' (omega (arith, n)) rest)

verified-rows :
    (digest : Json → String) (v : Vault)
    → verify_audit_chain digest v ≡ true
    → (ls : List Json) × (rows v.ledger ≡ some ls)
      × (map digest ls ≡ entry_hashes (audit_lines v.audit))
unfolding verify_audit_chain
verified-rows digest v h = elim (Option-cases (split_rows v.ledger)) [
  | inl bad ↦ ground arith
  | inr (ls, f) ↦ (
    ls,
    split_rows-rows v.ledger ls f,
    check_rows-digests digest "" ls (audit_lines v.audit) (ground arith) (ground arith),
  )
]

-- Beside one and the same audit file, two ledgers that are both verified have as many rows, with the
-- same digests in the same order: to change, drop, add or swap ledger rows unnoticed takes a collision
-- of the digest, or a change of the audit file as well.
pub verify-pins_ledger :
    (digest : Json → String) (v w : Vault)
    → v.audit ≡ w.audit
    → verify_audit_chain digest v ≡ true
    → verify_audit_chain digest w ≡ true
    → (ls ms : List Json) × (rows v.ledger ≡ some ls)
      × (rows w.ledger ≡ some ms)
      × (map digest ls ≡ map digest ms)
verify-pins_ledger digest v w e hv hw =
    let (ls, f, p) = verified-rows digest v hv in
    let (ms, g, q) = verified-rows digest w hw in
    (ls, ms, f, g, p ∙ ap (λ a. entry_hashes (audit_lines a)) e ∙ sym q)
