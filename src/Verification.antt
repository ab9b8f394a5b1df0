-- ===== src/Verification.antt =====
-- internal/verification: the jobs that run a workspace's checks.
pub mod Quoting
pub mod Automation
pub mod Jobs
pub mod Run
pub mod Retention
pub mod Service
pub mod Artifacts
mod Tests
