-- ===== src/Submission.antt =====
-- The component builds of a submitted module: module_build_service/scheduler/submit.py.
mod Mmd
mod Overrides
mod Recording
pub mod Order
pub mod Batches
unfoldable pub use Mmd.*
unfoldable pub use Overrides.*
unfoldable pub use Recording.*
