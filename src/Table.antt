-- ===== src/Table.antt =====
-- A database table: rows in insertion order under a text primary key. `find` is `db.get`, `put`
-- is the flush of a changed row, `insert` is `db.add` of a new one.
mod Ops
mod Keyed
mod Lookup
mod Removal
unfoldable pub use Ops.*
pub use Keyed.*
pub use Lookup.*
pub use Removal.*
