-- ===== src/Workload.antt =====
-- crates/workload/src: the programs that run on the kernel.
pub mod Rng
pub mod Data
pub mod Pipeline
pub mod Baseline
pub mod Chaos
