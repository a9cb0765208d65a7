-- ===== src/Core.antt =====
-- The owner of a native object, internal/core/handle.go.
pub mod Handle
pub mod World
pub mod Native
pub mod Cipher
pub mod Digest
pub mod Contexts
mod Runs
