-- ===== src/Blob.antt =====
-- scripts/ghcr-blob-stream.py: one blob of the registry, streamed to standard output.
pub mod Ref
pub mod Download
pub mod Reading
pub mod Loop
pub mod Verified
pub mod Completion
pub mod BrokenWrite
pub mod Command
mod Tests
