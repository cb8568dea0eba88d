-- ===== src/Parser.antt =====
-- parser.py: a migration file as a script of classified statements.
mod Transactions
mod Baseline
mod Locations
mod Files
pub mod Needs
pub mod SelfContained
pub mod Grouping
pub mod GroupShape
pub mod Boundaries
pub mod Completeness
unfoldable pub use Transactions.*
unfoldable pub use Baseline.*
unfoldable pub use Locations.*
unfoldable pub use Files.*
