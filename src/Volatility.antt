-- ===== src/Volatility.antt =====
-- volatility.py: the volatility of a default or generation expression, from its parse tree alone
-- or with the facts that a server gave about functions.
mod Tables
mod Functions
mod Expressions
mod Live
pub mod Laws
pub mod Resolution
unfoldable pub use Tables.*
unfoldable pub use Functions.*
unfoldable pub use Expressions.*
unfoldable pub use Live.*
