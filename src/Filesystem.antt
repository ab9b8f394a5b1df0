-- ===== src/Filesystem.antt =====
-- The guards of internal/filesystem in front of paths and names that come from requests.
pub mod Paths
pub mod Pathguard
pub mod Writeguard
pub mod Guardedwrite
pub mod Sourceguard
mod Tests
