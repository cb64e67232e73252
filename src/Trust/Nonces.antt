-- ===== src/Trust/Nonces.antt =====
-- collab/trust.py: the file of the nonces, which `_save_nonces` writes and the constructor reads.
use Prim.Native.Nat.{Ordering}
use Prim.Native.String.{compare}
use text.Mathlib.Text.{is_eq}
use hermes_k2_monitor.Prelude.{
  ◌≡◌, refl, ap, ◌∙◌, String, Bool, true, false, [], ◌∷◌, Option, none, some, arith, str_eq, eq_iff,
  if◌then◌else◌, Dict, lookup, Bool-cases, inl, inr,
}
use hermes_k2_monitor.Trust.{Stamp, Manager}

-- `sort_keys=True`
abbrev is_less : Ordering → Bool
is_less Ordering.lt = true
is_less Ordering.eq = false
is_less Ordering.gt = false

insert_key : String → Stamp → Dict Stamp → Dict Stamp
insert_key k a [] = (k, a) ∷ []
insert_key k a ((j, b) ∷ d) =
    let rest = insert_key k a d in
    if is_less (compare j k) then (j, b) ∷ rest else (k, a) ∷ (j, b) ∷ d

unfoldable pub sort_keys : Dict Stamp → Dict Stamp
unfolding insert_key
sort_keys [] = []
sort_keys ((k, a) ∷ d) = insert_key k a (sort_keys d)

-- A value of the file: what `float` makes of it, `none` if it raises TypeError or ValueError.
abbrev pub Entry : Type 0
Entry = Option Stamp

-- what `_save_nonces` writes
abbrev pub dump : Dict Stamp → Dict Entry
dump [] = []
dump ((k, a) ∷ d) = (k, some a) ∷ dump d

-- `{str(k): float(v) for k, v in data.items()}`; `none` if `float` raises
unfoldable pub floats : Dict Entry → Option (Dict Stamp)
floats [] = some []
floats ((k, none) ∷ d) = none
floats ((k, some a) ∷ d) = elim (floats d) [ none ↦ none | some rest ↦ some ((k, a) ∷ rest) ]

-- `_load_nonces`, of the dict in the file; `none` is a file that is missing, no JSON or no dict
unfoldable pub load_nonces : Option (Dict Entry) → Dict Stamp
unfolding floats
load_nonces none = []
load_nonces (some d) = elim (floats d) [ none ↦ [] | some nonces ↦ nonces ]

-- The manager of a process that starts anew on the file that the last one has written.
unfoldable pub restarted : Manager → Manager
unfolding sort_keys load_nonces
restarted m = record m { nonces = load_nonces (some (dump (sort_keys m.nonces))) }

floats-dump : (d : Dict Stamp) → floats (dump d) ≡ some d
unfolding floats
floats-dump [] = refl
floats-dump ((k, a) ∷ d) = rw (floats-dump d) refl

less-not_equal : (o : Ordering) → is_less o ≡ true → is_eq o ≡ false
less-not_equal Ordering.lt e = refl
less-not_equal Ordering.eq e = absurd cc
less-not_equal Ordering.gt e = refl

less-differs : (j k : String) → is_less (compare j k) ≡ true → str_eq j k ≡ false
less-differs j k e = less-not_equal (compare j k) e

lookup-insert_key :
    (k j : String) (a : Stamp) (d : Dict Stamp)
    → lookup j (insert_key k a d) ≡ (if str_eq k j then some a else lookup j d)
unfolding lookup insert_key
lookup-insert_key k j a [] = refl
lookup-insert_key k j a ((i, b) ∷ d) = elim (Bool-cases (is_less (compare i k))) [
  | inr n ↦ rw n refl
  | inl y ↦ rw y (
      ground
        (arith, less-differs i k y, eq_iff i j, eq_iff i k, eq_iff k j, lookup-insert_key k j a d))
]

lookup-sort_keys : (j : String) (d : Dict Stamp) → lookup j (sort_keys d) ≡ lookup j d
unfolding lookup sort_keys
lookup-sort_keys j [] = refl
lookup-sort_keys j ((k, a) ∷ d) =
    ground (arith, lookup-insert_key k j a (sort_keys d), lookup-sort_keys j d)

load-dump : (d : Dict Stamp) → load_nonces (some (dump d)) ≡ d
unfolding load_nonces
load-dump d = rw (load_nonces, floats-dump d) refl

-- A restart keeps every nonce with its stamp.
pub lookup-restarted :
    (j : String) (m : Manager) → lookup j (restarted m).nonces ≡ lookup j m.nonces
unfolding restarted
lookup-restarted j m = ap (lookup j) (load-dump (sort_keys m.nonces)) ∙ lookup-sort_keys j m.nonces
