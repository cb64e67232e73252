-- ===== src/Vault/Chain/Rows.antt =====
-- collab/vault.py, the audit chain: what a verified prefix says of its rows, and one row more.
use hermes_k2_monitor.Prelude.{
  ◌≡◌, refl, sym, ap, ◌∙◌, String, Bool, true, false, List, [], ◌∷◌, ◌++◌, if◌then◌else◌, Option,
  none, some, arith, eq_iff, length, any, Option-cases, inl, inr,
}
use hermes_k2_monitor.Json.{Json, null, bool, num, str, arr, obj, is_text}
use hermes_k2_monitor.Vault.Defs.{Line, blank, garbage, row}
use hermes_k2_monitor.Vault.Lines.{is_one_line}
use hermes_k2_monitor.Vault.Chain.{rows, split_rows, get, check_row, check_rows}

-- The text under "hash", as `previous` of the next round.
abbrev pub hash_text : Json → String
hash_text a = elim (get "hash" a) [ some (str h) ↦ h | _ ↦ "" ]

-- `previous` after the rows of an audit file.
abbrev pub last_from : String → List Json → String
last_from p [] = p
last_from p (a ∷ as') = last_from (hash_text a) as'

pub rows-append :
    (ls : List Line) (vs : List Json) (v : Json)
    → rows ls ≡ some vs
    → rows (ls ++ row v ∷ []) ≡ some (vs ++ v ∷ [])
unfolding rows
rows-append [] vs v e = ground arith
rows-append (blank ∷ ls) vs v e = rows-append ls vs v e
rows-append (garbage ∷ ls) vs v e = cc
rows-append (row w ∷ ls) vs v e = elim (Option-cases (rows ls)) [
  | inl bad ↦ ground arith
  | inr (us, f) ↦ ground (arith, rows-append ls us v f)
]

pub split_rows-rows :
    (ls : List Line) (vs : List Json) → split_rows ls ≡ some vs → rows ls ≡ some vs
unfolding rows split_rows
split_rows-rows [] vs e = e
split_rows-rows (blank ∷ ls) vs e = split_rows-rows ls vs e
split_rows-rows (garbage ∷ ls) vs e = cc
split_rows-rows (row w ∷ ls) vs e = elim (Option-cases (split_rows ls)) [
  | inl bad ↦ absurd (ground arith)
  | inr (us, f) ↦ ground (arith, split_rows-rows ls us f)
]

pub split_rows-append :
    (ls : List Line) (vs : List Json) (v : Json)
    → split_rows ls ≡ some vs
    → split_rows (ls ++ row v ∷ []) ≡ (if is_one_line v then some (vs ++ v ∷ []) else none)
unfolding split_rows
split_rows-append [] vs v e = ground arith
split_rows-append (blank ∷ ls) vs v e = split_rows-append ls vs v e
split_rows-append (garbage ∷ ls) vs v e = absurd cc
split_rows-append (row w ∷ ls) vs v e = elim (Option-cases (split_rows ls)) [
  | inl bad ↦ absurd (ground arith)
  | inr (us, f) ↦ ground (arith, split_rows-append ls us v f)
]

pub any-append :
    (p : Json → Bool) (xs : List Json) (y : Json)
    → any p xs ≡ false
    → p y ≡ false
    → any p (xs ++ y ∷ []) ≡ false
any-append p [] y e f = ground arith
any-append p (x ∷ xs) y e f = ground (arith, any-append p xs y)

is_text-eq : (s : String) (o : Option Json) → is_text s o ≡ true → o ≡ some (str s)
is_text-eq s none h = cc
is_text-eq s (some (str t)) h = ground (arith, eq_iff t s)
is_text-eq s (some null) h = cc
is_text-eq s (some (bool b)) h = cc
is_text-eq s (some (num n)) h = cc
is_text-eq s (some (arr x)) h = cc
is_text-eq s (some (obj x)) h = cc

module _ (digest : Json → String) (p : String) (l a : Json) (c : String) where
  -- A round that passes leaves the row's own hash, and has found the digest of the ledger row.
  pub check_row-hash : check_row digest p l a ≡ some c → hash_text a ≡ c
  unfolding check_row
  check_row-hash e = ground (arith, is_text-eq c (get "hash" a))

  pub check_row-digest :
      check_row digest p l a ≡ some c → get "entry_hash" a ≡ some (str (digest l))
  unfolding check_row
  check_row-digest e = ground (arith, is_text-eq (digest l) (get "entry_hash" a))

module _ (digest : Json → String) (p : String) (l a : Json) (ls as' : List Json) where
  pub check_rows-step :
      (d : String)
      → check_row digest p l a ≡ some d
      → check_rows digest p (l ∷ ls) (a ∷ as') ≡ check_rows digest d ls as'
  unfolding check_rows
  check_rows-step d e = rw (check_rows, e)

  pub check_rows-first :
      check_rows digest p (l ∷ ls) (a ∷ as') ≡ true
      → (d : String) × (check_row digest p l a ≡ some d) × (check_rows digest d ls as' ≡ true)
  unfolding check_rows
  check_rows-first h = elim (Option-cases (check_row digest p l a)) [
    | inl bad ↦ ground arith
    | inr (d, f) ↦ (d, f, sym (check_rows-step d f) ∙ h)
  ]

-- A verified file with one row more, which passes in its turn.
pub check_rows-append :
    (digest : Json → String) (p : String) (ls as' : List Json) (l a : Json) (c : String)
    → length ls ≡ length as'
    → check_rows digest p ls as' ≡ true
    → check_row digest (last_from p as') l a ≡ some c
    → check_rows digest p (ls ++ l ∷ []) (as' ++ a ∷ []) ≡ true
check_rows-append digest p [] [] l a c n h e =
    check_rows-step digest p l a [] [] c e ∙ unfold check_rows in refl
check_rows-append digest p [] (b ∷ as') l a c n h e = absurd (omega (arith, n))
check_rows-append digest p (k ∷ ls) [] l a c n h e = absurd (omega (arith, n))
check_rows-append digest p (k ∷ ls) (b ∷ as') l a c n h e =
    let (d, f, rest) = check_rows-first digest p k b ls as' h in
    check_rows-step digest p k b (ls ++ l ∷ []) (as' ++ a ∷ []) d f
    ∙ check_rows-append digest d ls as' l a c (omega (arith, n)) rest (
        ap (λ q. check_row digest (last_from q as') l a) (sym (check_row-hash digest p k b d f))
        ∙ e)
