-- ===== src/Vault/Chain.antt =====
-- collab/vault.py: the audit chain over the ledger.
pub mod Rows
pub mod Clean
pub mod Pinned
use hermes_k2_monitor.Prelude.{
  ℕ, String, Bool, true, false, not, ◌&&◌, List, [], ◌∷◌, Option, none, some, str_eq, ◌==◌,
  if◌then◌else◌, length, any,
}
use hermes_k2_monitor.Json.{Json, str, obj, end, field, get_field, is_obj, is_text, json_eq}
use hermes_k2_monitor.Vault.Defs.{Line, blank, garbage, row, Vault}
use hermes_k2_monitor.Vault.Lines.{is_one_line, lines_in}

-- The rows of a file that is read line by line; `none` is the JSONDecodeError.
unfoldable pub rows : List Line → Option (List Json)
rows [] = some []
rows (blank ∷ ls) = rows ls
rows (garbage ∷ ls) = none
rows (row v ∷ ls) = elim (rows ls) [ none ↦ none | some vs ↦ some (v ∷ vs) ]

-- The ledger's rows, whose lines are those of `splitlines`: a row that is more than one line is no
-- JSON in any of them.
unfoldable pub split_rows : List Line → Option (List Json)
split_rows [] = some []
split_rows (blank ∷ ls) = split_rows ls
split_rows (garbage ∷ ls) = none
split_rows (row v ∷ ls) =
    let rest = split_rows ls in
    if is_one_line v then elim rest [ none ↦ none | some vs ↦ some (v ∷ vs) ] else none

-- `_audit_lines`: the rows, or none at all if a line does not hold an object
unfoldable pub audit_lines : List Line → List Json
unfolding rows
audit_lines ls = elim (rows ls) [
  | none ↦ []
  | some vs ↦ if any (λ v. not (is_obj v)) vs then [] else vs
]

-- `v.get(k)`; only an object has that
abbrev pub get : String → Json → Option Json
get k (obj fs) = get_field k fs
get k _ = none

-- `audit.get("ledger_id") != ledger.get("id")`
abbrev pub same : Option Json → Option Json → Bool
same none none = true
same (some v) (some w) = json_eq v w
same _ _ = false

abbrev pub or_empty : Option Json → Option Json
or_empty none = some (str "")
or_empty (some v) = some v

-- The value whose digest chains an audit row to the one before.
abbrev pub link : Json → String → String → Json
link ledger_id prev_hash entry_hash = obj (
    field "ledger_id" ledger_id
      (field "prev_hash" (str prev_hash) (field "entry_hash" (str entry_hash) end)))

module _ (digest : Json → String) where
  -- A round of the loop in `verify_audit_chain`: the new `previous`, or `none` for a False.
  unfoldable pub check_row : String → Json → Json → Option String
  check_row previous ledger audit =
      let entry_hash = digest ledger in
      if not (is_obj ledger && same (get "ledger_id" audit) (get "id" ledger))
      then none
      else if not (is_text previous (or_empty (get "prev_hash" audit)))
      then none
      else if not (is_text entry_hash (get "entry_hash" audit))
      then none
      else elim (get "ledger_id" audit) [
        | none ↦ none
        | some id ↦
            let current = digest (link id previous entry_hash) in
            if is_text current (get "hash" audit) then some current else none
      ]

  unfoldable pub check_rows : String → List Json → List Json → Bool
  unfolding check_row
  check_rows previous [] as' = true
  check_rows previous (l ∷ ls) [] = true
  check_rows previous (l ∷ ls) (a ∷ as') = elim (check_row previous l a) [
    | none ↦ false
    | some current ↦ check_rows current ls as'
  ]

  -- `verify_audit_chain`
  unfoldable pub verify_audit_chain : Vault → Bool
  unfolding check_rows audit_lines split_rows lines_in
  verify_audit_chain v = elim (split_rows v.ledger) [
    | none ↦ false
    | some ls ↦
        let as' = audit_lines v.audit in
        if length ls == length as' then check_rows "" ls as' else false
  ]
