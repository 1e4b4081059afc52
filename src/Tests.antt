-- ===== src/Tests.antt =====
-- Concrete inputs, at which the theorems are applied.
pub mod Samples
pub mod StateTests
pub mod StoreTests
pub mod ImapTests
pub mod MailboxTests
pub mod VerifierTests
pub mod ConfigSamples
pub mod ConfigTests
pub mod RunnerTests
pub mod CommandTests
