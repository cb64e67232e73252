-- ===== src/Server.antt =====
-- server.py: what the handlers do with the components of collab/.
pub mod Gates
pub mod Feeds
pub mod Slots
pub mod Opening
pub mod Forward
pub mod Mesh
pub mod Relaying
pub mod Revoking
pub mod Tasks
pub mod Adopting
pub mod LocalTasks
pub mod Exporting
pub mod Files
pub mod Viewers
pub mod Joining
pub mod Reading
mod Tests
mod RouteTests
