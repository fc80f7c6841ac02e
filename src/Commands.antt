-- ===== src/Commands.antt =====
-- cmd/: the two commands.
pub mod Groups
pub mod Shell
pub mod NethCert
pub mod Nethd
