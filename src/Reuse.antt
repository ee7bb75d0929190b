-- ===== src/Reuse.antt =====
-- module_build_service/scheduler/reuse.py: which component builds of an earlier module build can
-- take the place of builds of this one.
mod Source
mod Component
mod Actions
pub mod Sets
pub mod Checks
pub mod AllOrNothing
pub mod Pairs
pub mod All
pub mod Verdict
unfoldable pub use Source.*
unfoldable pub use Component.*
unfoldable pub use Actions.*
