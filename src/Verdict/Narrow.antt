-- ===== src/Verdict/Narrow.antt =====
-- verdict/narrow.py: the facts of a snapshot applied to the catalog's worst cases.
mod Checks
mod Results
mod Columns
mod Constraints
mod Actions
pub mod Grounds
mod ConstraintGrounds
mod ColumnGrounds
mod ActionGrounds
pub mod Laws
unfoldable pub use Checks.*
unfoldable pub use Results.*
unfoldable pub use Columns.*
unfoldable pub use Constraints.*
unfoldable pub use Actions.*
