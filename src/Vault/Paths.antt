-- ===== src/Vault/Paths.antt =====
-- collab/vault.py: the files that a client may name. The dictionary is the vault's `files`. `resolve` is what `Path.resolve` makes of the parts, links
-- followed: the path from the root, `none` if it leaves the root.
pub mod Files
mod Tests
use hermes_k2_monitor.Prelude.{
  ℕ, suc, ◌+◌, String, Bool, true, false, ◌||◌, List, [], ◌∷◌, Option, none, some, ltb, ◌==◌,
  str_eq, if◌then◌else◌, length, any, is_empty, Dict, lookup, insert,
}
use Prim.Native.Char.{code}
use hermes_k2_monitor.Vault.Defs.{Content, utf8, binary}
use hermes_k2_monitor.Monad.{Result, ok, raised, Exec, ◌>>=◌}
use hermes_k2_monitor.Text.{codes, strip, starts_with, has_code, lower_in, split}

-- A VaultError by its message, the FileNotFoundError, or the UnicodeDecodeError.
pub data FileError : Type 0 where
  invalid_path forbidden_path too_large invalid_file not_found not_utf8 : FileError

abbrev forbidden_parts : List String
forbidden_parts = ".auth" ∷ ".hermes" ∷ "keys" ∷ "key" ∷ ".env" ∷ "config.yaml" ∷ "config.yml" ∷ []

-- `requested.replace("\\", "/")`
replace_backslash : String → String
replace_backslash String.[] = ""
replace_backslash (String.◌∷◌ c s) =
    let rest = replace_backslash s in
    if code c == b'\\' then String.◌∷◌ "/" rest else String.◌∷◌ c rest

abbrev without_collab : List String → List String
without_collab [] = []
without_collab (p ∷ ps) = if str_eq p "collab" then ps else p ∷ ps

abbrev is_dots : String → Bool
is_dots p = str_eq p "" || str_eq p "." || str_eq p ".."

abbrev is_hidden : String → Bool
is_hidden p = lower_in p forbidden_parts || starts_with (codes ".") (codes p)

-- the size of a text in UTF-8
pub size : String → ℕ
size String.[] = 0
size (String.◌∷◌ c s) =
    (if ltb (code c) 0x80
      then 1
      else if ltb (code c) 0x800
      then 2
      else if ltb (code c) 0x10000
      then 3
      else 4)
    + size s

-- What reading in text mode makes of the line ends: "\r\n" and "\r" are "\n".
mutual
  pub universal : String → String
  universal String.[] = ""
  universal (String.◌∷◌ c s) =
      if code c == 13 then String.◌∷◌ "\n" (after_return s) else String.◌∷◌ c (universal s)

  after_return : String → String
  after_return String.[] = ""
  after_return (String.◌∷◌ c s) =
      if code c == 10
      then universal s
      else if code c == 13
      then String.◌∷◌ "\n" (after_return s)
      else String.◌∷◌ c (universal s)

abbrev pub size_limit : ℕ
size_limit = 1048576

module _ (resolve : List String → Option String) where
  -- `safe_path` of a text
  pub safe_path : String → Result FileError String
  unfolding replace_backslash
  safe_path requested =
      let normalized = replace_backslash requested in
      let parts = without_collab (split b'/' normalized) in
      if is_empty (strip (codes requested))
      then raised invalid_path
      else if starts_with (codes "/") (codes normalized) || has_code 0 (codes normalized)
      then raised forbidden_path
      else if ltb (length parts) 2 || any is_dots parts
      then raised forbidden_path
      else if any is_hidden parts
      then raised forbidden_path
      else elim (resolve parts) [ none ↦ raised forbidden_path | some p ↦ ok p ]

  abbrev read_at : Dict Content → String → Result FileError String
  read_at files p = elim (lookup p files) [
    | none ↦ raised not_found
    | some (utf8 content) ↦
        if ltb size_limit (size content) then raised too_large else ok (universal content)
    | some (binary n) ↦ if ltb size_limit n then raised too_large else raised not_utf8
  ]

  -- `read_file`
  pub read_file : String → Dict Content → Result FileError String
  read_file requested files = elim (safe_path requested) [
    | raised e ↦ raised e
    | ok p ↦ read_at files p
  ]

  -- `write_file`, for a content that is a text
  pub write_file : String → String → Exec FileError (Dict Content) String
  write_file requested content files =
      if ltb size_limit (size content)
      then (raised invalid_file, files)
      else elim (safe_path requested) [
        | raised e ↦ (raised e, files)
        | ok p ↦ (ok p, insert p (utf8 content) files)
      ]
