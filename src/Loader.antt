-- ===== src/Loader.antt =====
-- catalog/loader.py: the lock catalog from a decoded YAML document, with every check of its data.
mod Documents
mod Spellings
mod Scalars
mod Matrix
mod Relations
mod Consistency
mod Rows
mod Tables
mod Catalogs
mod Checks
pub mod Symmetry
pub mod Rules
pub mod Members
pub mod Lookups
pub mod Breakpoints
mod Injective
mod TableLaws
pub mod Totality
unfoldable pub use Documents.*
unfoldable pub use Spellings.*
unfoldable pub use Scalars.*
unfoldable pub use Matrix.*
unfoldable pub use Relations.*
unfoldable pub use Consistency.*
unfoldable pub use Rows.*
unfoldable pub use Tables.*
unfoldable pub use Catalogs.*
