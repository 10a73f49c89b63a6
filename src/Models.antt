-- ===== src/Models.antt =====
-- backend/app/models: the rows of the grading pipeline. UUIDs, dates and times are numbers; a
-- column that no modelled code reads or writes is left out.
mod Kinds
mod Rows
pub mod Store
pub use Kinds.*
pub use Rows.*
