-- ===== src/Sym.antt =====
-- Symmetric ciphers, sym: the padding of sym/padding.go.
pub mod Padding
pub mod Modes
mod Runs
