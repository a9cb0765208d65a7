-- ===== src/Tls.antt =====
-- The handshake of tls/, around the native one.
pub mod State
pub mod Handshake
pub mod Suites
pub mod Errors
mod Runs
