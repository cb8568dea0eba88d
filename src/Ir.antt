-- ===== src/Ir.antt =====
-- ir.py: what a parsed migration file is.
mod Kinds
mod Spelling
mod Statements
mod Attributes
pub use Kinds.*
pub use Spelling.*
unfoldable pub use Statements.*
unfoldable pub use Attributes.*
