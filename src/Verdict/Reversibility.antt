-- ===== src/Verdict/Reversibility.antt =====
-- verdict/reversibility.py: whether a committed statement can be undone.
mod Shared
mod Statements
mod Actions
mod Combine
pub mod Laws
unfoldable pub use Statements.*
unfoldable pub use Actions.*
unfoldable pub use Combine.*
