-- ===== src/Db.antt =====
-- The PostgreSQL database: rows (src/data/models/postgres), tables and the transaction scope
-- (src/data/clients/postgres_client.py). A child module for each; this one passes their names on.
mod Status
mod Rows
mod Table
mod Effects
pub use Status.*
pub use Rows.*
unfoldable pub use Table.*
unfoldable pub use Effects.*
