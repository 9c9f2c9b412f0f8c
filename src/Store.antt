-- ===== src/Store.antt =====
-- The PostgreSQL database of the backend: a record of tables, each a list of rows. The columns are
-- those that the Go repositories read or write (internal/platform/migrations/sql). Identifiers are
-- UUIDs, which are only compared, and times are instants; both are natural numbers.
mod Rows
mod Drivers
mod Policies
mod Tables
mod Timing
pub use Rows.*
pub use Drivers.*
pub use Policies.*
pub use Tables.*
pub use Timing.*
