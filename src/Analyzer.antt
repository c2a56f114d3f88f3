-- ===== src/Analyzer.antt =====
-- crates/malleus-analyzer: the schedulability analysis of a task set.
pub mod ResponseTime
pub mod Schedule
