-- ===== src/Keystore.antt =====
-- The in-memory key store, keystore/store.go and the handles of keystore/handle.go.
pub mod Store
pub mod Versions
pub mod Steps
pub mod Invariant
mod Runs
