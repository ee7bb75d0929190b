-- ===== src/Models.antt =====
-- module_build_service/common/models.py: the rows of the database, the store that the handlers
-- work on, and the methods of the two main classes.
mod Rows
mod Store
mod Component
mod Module
pub mod Table
pub mod History
pub mod Keys
pub mod Update
pub mod Path
unfoldable pub use Rows.*
unfoldable pub use Store.*
unfoldable pub use Component.*
unfoldable pub use Module.*
