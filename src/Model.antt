-- ===== src/Model.antt =====
-- The data model: `pos_service/models.py`, the request and reply types of
-- `pos_service/clients`, and the store that the services read and write.
mod Rows
mod Kinds
mod Wire
mod State
mod Config
pub use Rows.*
pub use Kinds.*
pub use Wire.*
unfoldable pub use State.*
pub use Config.*
