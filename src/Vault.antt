-- ===== src/Vault.antt =====
-- collab/vault.py: the durable state of the mesh. The object is `Vault`; what an instant or a fresh
-- uuid is, and the digest of a JSON value (sha256 of its canonical text), are arguments.
mod Defs
mod Lines
pub use Defs.*
pub use Lines.{line_count, is_one_line}
unfoldable pub use Lines.{lines_added, lines_in}
pub mod Nodes
pub mod Chain
pub mod Tasks
pub mod Events
pub mod Broken
mod Tests
pub mod Audit
pub mod Paths
pub mod Revocation
