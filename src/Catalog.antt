-- ===== src/Catalog.antt =====
-- catalog/model.py and catalog/resolve.py: the lock catalog and the rows that apply to a statement.
mod Modes
mod Entries
mod Lookup
mod Resolve
mod Coverage
mod Folds
pub mod Reach
pub mod Laws
unfoldable pub use Modes.*
unfoldable pub use Entries.*
unfoldable pub use Lookup.*
unfoldable pub use Resolve.*
unfoldable pub use Coverage.*
unfoldable pub use Folds.*
