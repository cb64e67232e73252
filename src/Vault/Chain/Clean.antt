-- ===== src/Vault/Chain/Clean.antt =====
-- collab/vault.py, the audit chain: files that are chained from end to end.
use hermes_k2_monitor.Prelude.{
  ◌≡◌, refl, String, true, false, not, List, [], ◌∷◌, ◌++◌, some, arith, eq_iff, length, any,
  length-append,
}
use hermes_k2_monitor.Json.{Json, str, is_obj, json_eq-str}
use hermes_k2_monitor.Vault.Defs.{row, Vault}
use hermes_k2_monitor.Vault.Lines.{is_one_line}
use hermes_k2_monitor.Vault.Chain.{
  rows, split_rows, audit_lines, get, link, check_row, check_rows, verify_audit_chain,
}
use hermes_k2_monitor.Vault.Chain.Rows.{
  last_from, rows-append, split_rows-append, any-append, check_rows-append,
}

-- Both files can be read, and every row of the one is chained to its row of the other. Of a ledger
-- with rows this is what `verify_audit_chain` finds; beside an empty ledger that function accepts
-- an audit file with a broken line too.
pub record IsClean (digest : Json → String) (v : Vault) : Type 0 where
  pub ls : List Json
  pub as' : List Json
  pub ledger_rows : split_rows v.ledger ≡ some ls
  pub audit_rows : rows v.audit ≡ some as'
  pub objects : any (λ a. not (is_obj a)) as' ≡ false
  pub lengths : length ls ≡ length as'
  pub chained : check_rows digest "" ls as' ≡ true

pub audit_lines-eq :
    (digest : Json → String) (v : Vault) (c : IsClean digest v) → audit_lines v.audit ≡ c.as'
unfolding audit_lines
audit_lines-eq digest v c = ground (arith, c.audit_rows, c.objects)

pub IsClean-verify :
    (digest : Json → String) (v : Vault) → IsClean digest v → verify_audit_chain digest v ≡ true
unfolding verify_audit_chain
IsClean-verify digest v c =
    ground (arith, c.ledger_rows, audit_lines-eq digest v c, c.lengths, c.chained)

module _ (digest : Json → String) (prev uuid : String) (l a : Json) where
  -- An audit row that names its ledger row, the hash before it, and the two digests.
  pub check_row-linked :
      is_obj l ≡ true
      → get "id" l ≡ some (str uuid)
      → get "ledger_id" a ≡ some (str uuid)
      → get "prev_hash" a ≡ some (str prev)
      → get "entry_hash" a ≡ some (str (digest l))
      → get "hash" a ≡ some (str (digest (link (str uuid) prev (digest l))))
      → check_row digest prev l a ≡ some (digest (link (str uuid) prev (digest l)))
  unfolding check_row
  check_row-linked o i li p eh h = ground (
    arith,
    json_eq-str uuid,
    eq_iff prev prev,
    eq_iff (digest l) (digest l),
    eq_iff (digest (link (str uuid) prev (digest l))) (digest (link (str uuid) prev (digest l))),
  )

-- Clean files with a passing row of one line more are clean.
pub IsClean-append :
    (digest : Json → String) (v w : Vault) (l a : Json) (c : IsClean digest v) (h : String)
    → w.ledger ≡ v.ledger ++ row l ∷ []
    → w.audit ≡ v.audit ++ row a ∷ []
    → is_one_line l ≡ true
    → is_obj a ≡ true
    → check_row digest (last_from "" c.as') l a ≡ some h
    → IsClean digest w
IsClean-append digest v w l a c h el ea one o e = record {
  ls = c.ls ++ l ∷ [];
  as' = c.as' ++ a ∷ [];
  ledger_rows = rw (el, split_rows-append v.ledger c.ls l c.ledger_rows, one) refl;
  audit_rows = rw ea (rows-append v.audit c.as' a c.audit_rows);
  objects = any-append (λ b. not (is_obj b)) c.as' a c.objects (rw o);
  lengths = omega (arith, c.lengths, length-append c.ls (l ∷ []), length-append c.as' (a ∷ []));
  chained = check_rows-append digest "" c.ls c.as' l a h c.lengths c.chained e;
}

-- Only the two files count.
pub IsClean-same :
    (digest : Json → String) (v w : Vault)
    → w.ledger ≡ v.ledger
    → w.audit ≡ v.audit
    → IsClean digest v
    → IsClean digest w
IsClean-same digest v w el ea c = record {
  ls = c.ls;
  as' = c.as';
  ledger_rows = rw el c.ledger_rows;
  audit_rows = rw ea c.audit_rows;
  objects = c.objects;
  lengths = c.lengths;
  chained = c.chained;
}
