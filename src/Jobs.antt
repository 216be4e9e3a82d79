-- ===== src/Jobs.antt =====
-- app/jobs/jdr.py: the background jobs of the worker.
pub mod Exec
pub mod Adapters
pub mod Source
pub mod Generation
pub mod Transcription
pub mod Writes
pub mod Runs
pub mod Atomic
pub mod Swap
pub mod Feed
pub mod Stitching
pub mod Written
pub mod Sample
mod Tests
