-- ===== src/State.antt =====
-- internal/state: the sync state of all mailboxes, its operations and its file.
pub mod UidSet
pub mod Data
pub mod Ops
pub mod Reads
pub mod View
pub mod Calls
pub mod Paths
pub mod Interleave
pub mod Dirty
pub mod Valid
pub mod Invariant
pub mod Updates
pub mod Synced
pub mod Unsynced
pub mod Highest
