-- ===== src/Batches.antt =====
-- module_build_service/scheduler/batches.py: the concurrent build threshold, the submission of
-- the components of a batch, and the step to the next batch.
mod Threshold
mod Continue
mod Next
pub mod Bound
pub mod Submission
pub mod Modules
pub mod Current
pub mod Termination
pub mod Guard
pub mod Lifecycle
pub mod History
unfoldable pub use Threshold.*
unfoldable pub use Continue.*
unfoldable pub use Next.*
