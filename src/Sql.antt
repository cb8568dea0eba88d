-- ===== src/Sql.antt =====
-- The parse tree that the third-party parser pglast hands to classify.py and volatility.py, as far
-- as these read it, and the calls of that parser as an interface.
mod Trees
mod Names
mod Commands
mod Statements
mod Interface
pub use Trees.*
unfoldable pub use Names.*
pub use Commands.*
pub use Statements.*
pub use Interface.*
