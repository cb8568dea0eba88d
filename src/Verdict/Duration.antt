-- ===== src/Verdict/Duration.antt =====
-- verdict/duration.py: how long a lock is held.
mod Families
mod Staleness
mod Estimates
pub mod Bounds
pub mod Refusals
unfoldable pub use Families.*
unfoldable pub use Staleness.*
unfoldable pub use Estimates.*
