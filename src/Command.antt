-- ===== src/Command.antt =====
-- cmd/boxcopy/main.go: the command line.
pub mod Data
pub mod Init
pub mod Report
pub mod Main
pub mod Effects
pub mod Safety
