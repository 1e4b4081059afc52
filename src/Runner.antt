-- ===== src/Runner.antt =====
-- internal/runner/runner.go: the copy of all mailboxes of a configuration.
pub mod Data
pub mod Queue
pub mod QueueLaws
pub mod Clean
pub mod Deletions
pub mod Run
pub mod Cleared
pub mod Copied
pub mod Performed
pub mod Cleaned
pub mod Guarded
