-- ===== src/Models.antt =====
-- The data model: app/models.
mod Enums
mod Rows
pub use Enums.*
pub use Rows.*
