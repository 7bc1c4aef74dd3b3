-- ===== src/Maintenance.antt =====
-- internal/maintenance: reaping expired archives, and the sync of a repository with GitHub.
pub mod Discover
pub mod Reap
pub mod Checks
pub mod Sync
pub mod Schedule
