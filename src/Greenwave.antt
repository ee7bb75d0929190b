-- ===== src/Greenwave.antt =====
-- The client for Greenwave: module_build_service/scheduler/greenwave.py.
pub mod Client
pub mod Verdict
