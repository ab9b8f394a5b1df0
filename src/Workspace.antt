-- ===== src/Workspace.antt =====
-- internal/workspace: which actions a workspace allows.
pub mod Actions
