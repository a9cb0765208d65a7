-- ===== src/Asn1/Simulation.antt =====
-- The loop of `ParseWithLimits` does what the recursion of `parseNode` does.
pub mod Steps
pub mod Contents
pub mod Subtree
pub mod Induction
pub mod Whole
