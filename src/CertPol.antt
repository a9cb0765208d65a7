-- ===== src/CertPol.antt =====
-- The certificatePolicies codec, x509/certpol.go and x509/certpol_der.go.
pub mod Types
pub mod Tlv
pub mod Integer
pub mod Oid
pub mod Encode
pub mod DisplayText
pub mod Parse
pub mod RoundTrip
mod Runs
