-- ===== src/Config.antt =====
-- internal/config: the configuration.
pub mod Data
pub mod Host
pub mod Load
pub mod Validate
pub mod Crypt
pub mod Decrypted
pub mod Loaded
pub mod Validated
pub mod Configured
