-- ===== src/Common/Table.antt =====
-- A database table as a list of rows, with the statements that the repositories run on it.
mod Statements
mod Lookups
mod Updates
pub use Statements.*
pub use Lookups.*
pub use Updates.*
