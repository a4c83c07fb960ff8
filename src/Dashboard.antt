-- ===== src/Dashboard.antt =====
-- The BuildStream dashboard: tools/bst_dashboard/ and tools/bst-dashboard.py.
pub mod Types
pub mod Updates
pub mod Patterns
pub mod Parse
mod Tests
pub mod Logs
pub mod Trace
pub mod Version
pub mod Invariant
pub mod Statuses
pub mod Render
pub mod Recorded
pub mod Events
pub mod View
pub mod Boundaries
