-- ===== src/Server.antt =====
-- tools/bst-dashboard.py: the server of the dashboard, around the state of `Dashboard`.
pub mod Tail
pub mod Lines
pub mod Runner
pub mod Deptree
pub mod Routes
pub mod Proc
pub mod Builds
pub mod Paths
pub mod Trees
pub mod Temperature
pub mod Enrich
pub mod Crates
pub mod Fetching
pub mod Handler
pub mod Replies
pub mod Serving
pub mod Sampler
pub mod Sampling
pub mod Steps
pub mod Kept
pub mod Sound
pub mod Tests
pub mod HandlerTests
pub mod SamplerTests
pub mod StepTests
