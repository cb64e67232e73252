-- ===== src/Vault/Lines.antt =====
-- collab/vault.py: how many lines `str.splitlines` makes of a row that `json.dumps` has written with
-- `ensure_ascii=False`. It writes U+0085, U+2028 and U+2029 as they are, and `splitlines` ends a line
-- at each of them; all other ends of lines are escaped.
use hermes_k2_monitor.Prelude.{
  ℕ, suc, ◌+◌, String, Bool, false, ◌&&◌, ◌||◌, leb, ◌==◌, if◌then◌else◌, not,
}
use Prim.Native.Char.{code}
use hermes_k2_monitor.Text.{is_space}
use hermes_k2_monitor.Json.{
  Json, null, bool, num, str, arr, obj, Items, nil, cons, Fields, end, field,
}

abbrev is_separator : ℕ → Bool
is_separator c = (c == 0x85) || (c == 0x2028) || (c == 0x2029)

-- the white space that is written as it is
abbrev is_plain_space : ℕ → Bool
is_plain_space c = leb 0x20 c && is_space c

-- Behind a separator: the lines that are not blank and end at a further one.
lines_between : Bool → String → ℕ
lines_between filled String.[] = 0
lines_between filled (String.◌∷◌ c s) =
    if is_separator (code c)
    then (if filled then 1 else 0) + lines_between false s
    else lines_between (filled || not (is_plain_space (code c))) s

-- How many lines a text adds to the one that it begins on; its quotes fill the first and the last.
unfoldable pub lines_added : String → ℕ
unfolding lines_between
lines_added String.[] = 0
lines_added (String.◌∷◌ c s) =
    let rest = lines_added s in if is_separator (code c) then suc (lines_between false s) else rest

unfoldable mutual
  unfolding lines_added

  pub lines_in : Json → ℕ
  lines_in null = 0
  lines_in (bool _) = 0
  lines_in (num _) = 0
  lines_in (str s) = lines_added s
  lines_in (arr xs) = lines_of_items xs
  lines_in (obj fs) = lines_of_fields fs

  lines_of_items : Items → ℕ
  lines_of_items nil = 0
  lines_of_items (cons x xs) = lines_in x + lines_of_items xs

  lines_of_fields : Fields → ℕ
  lines_of_fields end = 0
  lines_of_fields (field k v fs) = lines_added k + lines_in v + lines_of_fields fs

-- The lines of a row that are not blank.
abbrev pub line_count : Json → ℕ
line_count v = suc (lines_in v)

abbrev pub is_one_line : Json → Bool
is_one_line v = lines_in v == 0
