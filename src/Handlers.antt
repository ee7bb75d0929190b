-- ===== src/Handlers.antt =====
-- module_build_service/scheduler/handlers: what happens on each kind of message.
mod Env
mod Components
mod Repos
mod Tags
mod Greenwave
mod Modules
mod Tasks
pub mod Lifecycle
unfoldable pub use Env.*
unfoldable pub use Components.*
unfoldable pub use Repos.*
unfoldable pub use Tags.*
unfoldable pub use Greenwave.*
unfoldable pub use Tasks.*
unfoldable pub use Modules.*
