-- ===== src/Streams.antt =====
-- The versions of streams: `ModuleBuild.get_stream_version` and the queries for the last builds in
-- module_build_service/common/models.py, `get_prefixed_version` of
-- module_build_service/web/submit.py.
mod Version
mod Prefixed
mod Latest
pub mod Triples
pub mod Bounds
pub mod Ordered
pub mod Greatest
unfoldable pub use Version.*
unfoldable pub use Prefixed.*
unfoldable pub use Latest.*
