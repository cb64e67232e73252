-- ===== src/Vault/Paths/Tests.antt =====
-- collab/vault.py, `safe_path`, `write_file` and `read_file` on concrete paths.
use hermes_k2_monitor.Prelude.{
  ◌≡◌, refl, String, List, [], ◌∷◌, Option, none, some, lookup, insert, str_eq, if◌then◌else◌,
}
use hermes_k2_monitor.Monad.{ok, raised}
use hermes_k2_monitor.Text.{lower_code, lower_is, lower_in, split}
use hermes_k2_monitor.Vault.Paths.{
  invalid_path, forbidden_path, replace_backslash, size, universal, after_return, safe_path,
  read_file, write_file,
}
use hermes_k2_monitor.Vault.Paths.Files.{read_file-write_file}

-- Two parts, of which the second names the file; "out" is a link that leaves the root.
abbrev resolve : List String → Option String
resolve (p ∷ q ∷ []) = if str_eq p "out" then none else some q
resolve _ = none

refused_paths :
    (safe_path resolve "  " ≡ raised invalid_path)
    × (safe_path resolve "/etc/passwd" ≡ raised forbidden_path)
    × (safe_path resolve "collab/../secret" ≡ raised forbidden_path)
    × (safe_path resolve "t1\\..\\secret" ≡ raised forbidden_path)
    × (safe_path resolve "t1/KEYS" ≡ raised forbidden_path)
    × (safe_path resolve "out/a.txt" ≡ raised forbidden_path)
unfolding safe_path replace_backslash split lower_in lower_is lower_code
refused_paths = (refl, refl, refl, refl, refl, refl)

read_file-write_file_example :
    read_file resolve "t1\\a.txt" (write_file resolve "collab/t1/a.txt" "hi\r\n" []).1 ≡ ok "hi\n"
unfolding safe_path replace_backslash split lower_in lower_is lower_code size universal after_return
    lookup insert
read_file-write_file_example =
    read_file-write_file resolve "collab/t1/a.txt" "t1\\a.txt" "hi\r\n" "a.txt" "a.txt" [] refl refl
      refl
