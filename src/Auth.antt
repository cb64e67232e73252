-- ===== src/Auth.antt =====
-- collab/auth.py: invitations, tokens and revocation, over the vault and the certificates.
mod State
pub use State.*
mod Tests
pub mod Codes
pub mod Tokens
