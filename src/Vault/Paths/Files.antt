-- ===== src/Vault/Paths/Files.antt =====
-- collab/vault.py: `write_file` and `read_file` together.
use hermes_k2_monitor.Prelude.{
  ◌≡◌, String, false, List, Option, arith, ltb, str_eq, if◌then◌else◌, Dict, insert, lookup-insert,
}
use hermes_k2_monitor.Vault.Defs.{Content, utf8}
use hermes_k2_monitor.Monad.{ok, raised}
use hermes_k2_monitor.Vault.Paths.{
  FileError, size, size_limit, universal, safe_path, read_file, write_file,
}

-- A content within the size limit that is written to a path that is accepted is what the next read of
-- that file returns, by whatever accepted path, with its line ends made "\n"; every other file reads
-- as before.
pub read_file-write_file :
    (resolve : List String → Option String) (requested other content p q : String)
    (files : Dict Content)
    → ltb size_limit (size content) ≡ false
    → safe_path resolve requested ≡ ok p
    → safe_path resolve other ≡ ok q
    → read_file resolve other (write_file resolve requested content files).1
      ≡ (if str_eq p q then ok (universal content) else read_file resolve other files)
unfolding read_file write_file
read_file-write_file resolve requested other content p q files small e f =
    ground (arith, lookup-insert p q (utf8 content) files)

-- A write that returns has put the content at an accepted path.
pub write_file-ok :
    (resolve : List String → Option String) (requested content name : String) (files : Dict Content)
    → (write_file resolve requested content files).0 ≡ ok name
    → (safe_path resolve requested ≡ ok name)
      × (ltb size_limit (size content) ≡ false)
      × ((write_file resolve requested content files).1 ≡ insert name (utf8 content) files)
unfolding write_file
write_file-ok resolve requested content name files h = (ground arith, ground arith, ground arith)

-- A write that is refused, for its size or for its path, leaves every file as it was.
pub write_file-raised :
    (resolve : List String → Option String) (requested content : String) (files : Dict Content)
    (e : FileError)
    → (write_file resolve requested content files).0 ≡ raised e
    → (write_file resolve requested content files).1 ≡ files
unfolding write_file
write_file-raised resolve requested content files e h = ground arith
