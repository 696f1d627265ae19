-- ===== src/Bench.antt =====
-- veil-core/scripts/fixtures.py: what the benchmarks and the probes run.
pub mod Json
pub mod Processes
pub mod Completion
pub mod Perf
pub mod Peers
pub mod Stack
pub mod Regression
pub mod Reality
pub mod Traffic
pub mod Browser
pub mod Probe
pub mod Benchmark
pub mod Comparison
pub mod Summary
pub mod Configurations
