-- ===== src/Sessions.antt =====
-- The durable records of AI sessions: internal/ai.
pub mod Durable
pub mod Records
pub mod Repository
pub mod Service
mod Tests
