-- ===== src/Imap.antt =====
-- internal/imap: the IMAP client wrapper.
pub mod Data
pub mod Api
pub mod Message
pub mod Fetch
pub mod Client
pub mod Folders
pub mod Messages
pub mod Sizes
pub mod Closing
pub mod Keepalive
