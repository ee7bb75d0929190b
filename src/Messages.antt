-- ===== src/Messages.antt =====
-- The messages of the bus: module_build_service/scheduler/parser.py (FedmsgMessageParser) and the
-- publishing functions of module_build_service/common/messaging.py.
mod Topic
mod Parser
pub mod Search
pub mod RoundTrip
unfoldable pub use Topic.*
unfoldable pub use Parser.*
