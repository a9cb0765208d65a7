-- ===== src/Meta.antt =====
-- The input and output helpers of meta/: text encodings, sinks, sources and passphrases.
pub mod Hex
pub mod Base64
pub mod Encoding
pub mod Sink
pub mod Source
pub mod Passphrase
mod Runs
