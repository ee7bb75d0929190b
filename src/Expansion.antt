-- ===== src/Expansion.antt =====
-- The streams of dependencies: `get_last_build_in_all_streams` of
-- module_build_service/common/models.py, and module_build_service/common/resolve.py.
pub mod Streams
pub mod Compatible
pub mod Strict
pub mod Removal
pub mod Offered
pub mod Fresh
