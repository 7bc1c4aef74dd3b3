-- ===== src/Cli.antt =====
-- The commands of cli/: what they decide and in which order they act. What a command prints on
-- success is part of its result.
pub mod Resolver
pub mod Add
pub mod Completion
pub mod List
pub mod Sync
pub mod Cd
pub mod Archive
pub mod Unarchive
pub mod RoundTrip
pub mod Remove
