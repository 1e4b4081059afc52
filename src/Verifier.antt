-- ===== src/Verifier.antt =====
-- internal/verifier: the comparison of a mailbox on both servers.
pub mod Compare
pub mod Agreement
pub mod Verify
pub mod ReadOnly
