-- ===== src/Asn1.antt =====
-- The DER viewer's parser, asn1/asn1.go and asn1/limits.go.
pub mod Node
pub mod Header
pub mod Recursive
pub mod Limits
pub mod Simulation
mod Runs
