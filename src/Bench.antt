-- ===== src/Bench.antt =====
-- crates/redis-web-bench: the part of the runner that computes with its specification, and the report
-- of its results. A run itself is processes and time.
pub mod Spec
pub mod Merging
pub mod Keys
pub mod Differences
pub mod Model
pub mod Rows
pub mod Graphs
pub mod Report
pub mod Sections
mod Tests
mod ReportTests
