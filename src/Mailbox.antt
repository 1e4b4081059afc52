-- ===== src/Mailbox.antt =====
-- internal/mailbox: the copy of one mailbox.
pub mod Data
pub mod Status
pub mod Message
pub mod Pipeline
pub mod Folder
pub mod Box
pub mod Copies
pub mod PipelineCopies
pub mod FolderCopies
pub mod BoxCopies
pub mod Effects
pub mod Targets
pub mod Neighbours
pub mod Repeat
pub mod Settled
pub mod Cancelled
pub mod Schedule
pub mod Completion
pub mod Delivered
pub mod Answered
pub mod Owed
pub mod Tracked
pub mod Finished
pub mod Lossless
