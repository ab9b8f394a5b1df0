-- ===== src/Scanner.antt =====
-- The workspace scanner: internal/workspace/scanner.
pub mod Budget
mod Tests
