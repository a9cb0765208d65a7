-- ===== src/CertPol/RoundTrip.antt =====
-- The parser reads back what the encoder wrote.
pub mod Expect
pub mod Notice
pub mod Qualifiers
pub mod Policies
pub mod Duplicates
