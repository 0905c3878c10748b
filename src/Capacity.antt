-- ===== src/Capacity.antt =====
-- examples/pipeline/capacity: the verdicts of the capacity analysis.
pub mod Verdict
pub mod Flow
pub mod Rollup
pub mod Exact
pub mod Examples
