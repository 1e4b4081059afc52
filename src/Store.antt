-- ===== src/Store.antt =====
-- internal/state/store.go: the state file.
pub mod Disk
pub mod File
pub mod Ops
pub mod Loading
pub mod Atomic
pub mod Roundtrip
