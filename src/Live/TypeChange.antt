-- ===== src/Live/TypeChange.antt =====
-- live/typechange.py: whether an ALTER COLUMN TYPE rewrites the table.
mod Spelling
mod Growth
mod Assess
mod Reasons
pub mod Laws
unfoldable pub use Spelling.*
unfoldable pub use Growth.*
unfoldable pub use Assess.*
unfoldable pub use Reasons.*
