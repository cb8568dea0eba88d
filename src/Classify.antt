-- ===== src/Classify.antt =====
-- classify.py: the statements of a parse tree as the statements of ir.py.
mod Names
mod Visitors
mod Windows
mod Columns
mod Constraints
mod Alter
mod Drops
mod Tables
mod Plpgsql
mod Shapes
mod Objects
mod Statements
mod Blocks
pub mod Conjuncts
pub mod WindowLaws
pub mod Termination
pub mod Defaults
unfoldable pub use Names.*
unfoldable pub use Visitors.*
unfoldable pub use Windows.*
unfoldable pub use Columns.*
unfoldable pub use Constraints.*
unfoldable pub use Alter.*
unfoldable pub use Drops.*
unfoldable pub use Tables.*
unfoldable pub use Plpgsql.*
unfoldable pub use Shapes.*
unfoldable pub use Objects.*
unfoldable pub use Statements.*
unfoldable pub use Blocks.*
