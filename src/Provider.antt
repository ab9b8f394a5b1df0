-- ===== src/Provider.antt =====
-- internal/provider: per-user connections, configured endpoints and the credential cipher.
pub mod Connections
pub mod Registry
pub mod Credentials
mod Tests
