-- ===== src/Instrument.antt =====
-- The instrumentation (src/instrument): bug data and the two inspectors.
pub mod Bug
pub mod BugInspector
pub mod LogInspector
