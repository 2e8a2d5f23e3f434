-- ===== src/Workspace.antt =====
-- The files of a workspace: app/services/workspace/file_sync.py.
pub mod Paths
pub mod Transfer
pub mod Sync
pub mod Shell
mod Tests
