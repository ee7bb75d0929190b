-- ===== src/Examples.antt =====
-- The theorems applied to a module build of two batches.
pub mod Data
mod Scheduling
mod Handling
mod Producing
mod Reading
mod Submitting
mod Expanding
mod Reusing
mod Consuming
