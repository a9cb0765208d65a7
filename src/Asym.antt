-- ===== src/Asym.antt =====
-- Asymmetric keys, asym: the SM2 ciphertext forms.
pub mod Sm2
mod Runs
